-- ===== src/Server/Status/Counts.antt =====
-- The totals of the status page against the limit that it shows beside them.
use tbore.Base.{ℕ, ◌*◌, ◌≤◌, length, All, List, [], ◌∷◌, arith}
use tbore.Base.Int.{pos, pos_part, ◌≤ℤ◌}
use tbore.Base.GoMap.{GoMap}
use tbore.Config.{ServerConfig}
use tbore.Server.Session.{Session, TunnelInfo}
use tbore.Server.Session.Invariant.{IsValid}
use tbore.Server.Status.{count_active, totals}

count_active-le : (l : GoMap ℕ ℕ) (heap : GoMap ℕ TunnelInfo) → count_active l heap ≤ length l
unfolding count_active
count_active-le [] heap = omega arith
count_active-le ((port, a) ∷ l) heap = ground (arith, count_active-le l heap)

-- The same of sessions that only keep to the limit.
pub totals_limited :
    (cfg : ServerConfig) (l : List Session)
    → All (λ s. pos (length s.tunnels) ≤ℤ cfg.max_tunnels) l
    → ((totals l).active_tunnels ≤ (totals l).total_tunnels)
      × ((totals l).total_tunnels ≤ pos_part cfg.max_tunnels * length l)
unfolding totals
totals_limited cfg [] v = (omega arith, omega arith)
totals_limited cfg (s ∷ l) v =
    let (active, total) = totals_limited cfg l v.1 in
    let here = count_active-le s.tunnels s.heap in
    let room : length s.tunnels ≤ pos_part cfg.max_tunnels = ground (arith, v.0) in
    (omega (arith, active, here), grind (arith, total, room))

All-limited :
    (cfg : ServerConfig) (l : List Session)
    → All (IsValid cfg) l
    → All (λ s. pos (length s.tunnels) ≤ℤ cfg.max_tunnels) l
All-limited cfg [] v = tt
All-limited cfg (s ∷ l) v = (v.0.limited, All-limited cfg l v.1)

-- If every session is valid, the page counts at most as many active tunnels as tunnels, and at most
-- as many tunnels as the limit that it shows, `max_tunnels` for each session.
totals-le :
    (cfg : ServerConfig) (l : List Session)
    → All (IsValid cfg) l
    → ((totals l).active_tunnels ≤ (totals l).total_tunnels)
      × ((totals l).total_tunnels ≤ pos_part cfg.max_tunnels * length l)
totals-le cfg l v = totals_limited cfg l (All-limited cfg l v)
