-- ===== src/Server/Status.antt =====
-- pkg/server/status.go: the numbers and the texts of the status page. Times and durations as text are
-- not modelled.
pub mod Counts
pub mod Page
pub mod Duration
use tbore.Base.{
  ℕ, suc, ◌+◌, ◌==◌, nat_eq, string_eq, String, length, if◌then◌else◌, Bool, true, false, not, ◌&&◌,
  ◌||◌, List, [], ◌∷◌, Option, none, some,
}
use mathlib.Core.Option
use tbore.Base.Int.{ℤ, pos, leb_ℤ, ltb_ℤ}
use tbore.Base.GoMap.{GoMap, lookup}
use tbore.Server.Session.{Session, TunnelInfo, TunnelState, is_state}

-- The tunnels of a session that are active.
unfoldable pub count_active : GoMap ℕ ℕ → GoMap ℕ TunnelInfo → ℕ
count_active [] heap = 0
count_active ((port, a) ∷ l) heap =
    let rest = count_active l heap in
    elim (lookup a heap) [ none ↦ rest | some t ↦ if is_state 0 t.state then suc rest else rest ]

pub record Totals : Type 0 where
  pub total_tunnels : ℕ
  pub active_tunnels : ℕ

unfoldable pub totals : List Session → Totals
unfolding count_active
totals [] = record { total_tunnels = 0; active_tunnels = 0 }
totals (s ∷ l) =
    let rest = totals l in
    record {
      total_tunnels = length s.tunnels + rest.total_tunnels;
      active_tunnels = count_active s.tunnels s.heap + rest.active_tunnels;
    }

-- What the page says of a tunnel.
pub record Row : Type 0 where
  pub state_desc : String
  pub active_info : String
  pub tunnel_name : String
  pub local_addr : String

unfoldable pub state_desc : TunnelState → String
state_desc s = if is_state 1 s then "IDLE" else if is_state 2 s then "DOWN" else "UP"

-- `format_active` is `fmt.Sprintf(" (%d active)", …)` and `format_port` `fmt.Sprintf("tunnel-%d", …)`.
unfoldable pub row : (ℤ → String) → (ℕ → String) → TunnelInfo → Row
unfolding state_desc
row format_active format_port t = record {
  state_desc = state_desc t.state;
  active_info =
      if not (is_state 2 t.state) && ltb_ℤ (pos 0) t.active_conns
      then format_active t.active_conns
      else "";
  tunnel_name = if t.name == "" then format_port t.remote_port else t.name;
  local_addr =
      if t.local_addr == "" || t.local_addr == "0.0.0.0" then "127.0.0.1" else t.local_addr;
}
