-- ===== src/Server/Live/Bounds.antt =====
-- Everything that a running server may go through, in any order, and its limits.
use tbore.Base.{
  ℕ, suc, ◌*◌, ◌≤◌, ◌≡◌, refl, sym, ◌∙◌, String, length, All, nat_eq, if◌then◌else◌, List, [], ◌∷◌,
  Option, none, some, arith, Option-cases, Bool-cases, inl, inr,
}
use mathlib.Core.Option
use tbore.Base.Int.{pos, pos_part, ◌≤ℤ◌, leb_ℤ}
use tbore.Base.GoMap.{GoMap, lookup}
use tbore.Config.{ServerConfig}
use tbore.Auth.Store.{Bucket, Json}
use tbore.Auth.Blocker.{AuthBlocker}
use tbore.Auth.Authenticator.{Crypto, Authenticator}
use tbore.Server.Session.{Session}
use tbore.Server.Session.Requests.{Request, Formats}
use tbore.Server.Connections.{Semaphore, IsSemaphore}
use tbore.Server.Status.{totals}
use tbore.Server.Status.Counts.{totals_limited}
use tbore.Server.Live.{
  Running, start_server, accept, check_addr, try_password, fail_handshake, establish, serve_request,
  end_live, range_sessions, get_status,
}
use tbore.Server.Live.Keys.{length-keys}
use tbore.Server.Live.Goroutines.{
  goroutines, Holds, Goes, accept-Holds, check_addr-Goes, try_password-Holds, fail_handshake-Goes,
  establish-Holds, serve_request-Holds, end_live-Goes,
}

-- What happens next: a number says which goroutine of its kind goes on.
pub data Event : Type 0 where
  connects : (remote_addr : String) → Event
  checks : (n now : ℕ) → Event
  logs_in : (n now later : ℕ) (pass : List ℕ) → Event
  fails : (n : ℕ) → Event
  is_established : (n : ℕ) (session_id : String) (now : ℕ) → Event
  requests : (listen : ℕ → Option ℕ) (n : ℕ) (req : Request) → Event
  closes : (n : ℕ) → Event

module _ {B : Bucket} {W : Semaphore} (json : Json) (crypto : Crypto) (a : Authenticator)
    (split : String → Option String) (F : Formats) (cfg : ServerConfig) where
  unfoldable pub step : Event → Running B W → Option (Running B W)
  step (connects remote_addr) t = some (accept remote_addr t)
  step (checks n now) t = check_addr json split n now t
  step (logs_in n now later pass) t = some (try_password json crypto a split n now later pass t)
  step (fails n) t = fail_handshake n t
  step (is_established n session_id now) t = some (establish n session_id now t)
  step (requests listen n req) t = some (serve_request F cfg listen n req t)
  step (closes n) t = end_live n t

  -- `none` when a release has panicked.
  unfoldable pub run : List Event → Running B W → Option (Running B W)
  unfolding step
  run [] t = some t
  run (e ∷ l) t = elim (step e t) [ none ↦ none | some t' ↦ run l t' ]

range_sessions-Fits :
    (cfg : ServerConfig) (m : GoMap String ℕ) (sessions : GoMap ℕ Session)
    → ((b : ℕ) (s : Session)
        → lookup b sessions ≡ some s
        → pos (length s.tunnels) ≤ℤ cfg.max_tunnels)
    → All (λ s. pos (length s.tunnels) ≤ℤ cfg.max_tunnels) (range_sessions m sessions)
      × (length (range_sessions m sessions) ≤ length m)
unfolding range_sessions
range_sessions-Fits cfg [] sessions fit = (tt, omega arith)
range_sessions-Fits cfg ((id, b) ∷ m) sessions fit =
    let (rest, fewer) = range_sessions-Fits cfg m sessions fit in
    elim (Option-cases (lookup b sessions)) [
      | inl closed ↦ rw (closed, range_sessions) (rest, omega (arith, fewer))
      | inr (s, stands) ↦ rw (stands, range_sessions) ((fit b s stands, rest), omega (arith, fewer))
    ]

module _ {B : Bucket} {W : Semaphore} (laws : IsSemaphore W) (json : Json) (crypto : Crypto)
    (a : Authenticator) (split : String → Option String) (F : Formats) (cfg : ServerConfig)
    (some_tunnels : pos 0 ≤ℤ cfg.max_tunnels) where
  start_server-Holds :
      (blocker : Option (AuthBlocker B))
      → pos 0 ≤ℤ cfg.max_connections
      → Holds laws cfg 0 (start_server cfg blocker)
  unfolding start_server lookup
  start_server-Holds blocker room =
      let (empty, size) = laws.new_weighted cfg.max_connections in
      record {
        held = empty;
        size = size;
        within = rw empty room;
        unique = tt;
        listed = λ id here. here;
        fit = λ b s here. absurd (ground (arith, here));
      }

  step-Goes :
      (e : Event) (t : Running B W)
      → Holds laws cfg 0 t
      → Goes laws cfg (step json crypto a split F cfg e t)
  unfolding step
  step-Goes (connects remote_addr) t c = (_, refl, accept-Holds laws cfg remote_addr t c)
  step-Goes (checks n now) t c = check_addr-Goes laws cfg json split n now t c
  step-Goes (logs_in n now later pass) t c =
      (_, refl, try_password-Holds laws cfg json crypto a split n now later pass t c)
  step-Goes (fails n) t c = fail_handshake-Goes laws cfg n t c
  step-Goes (is_established n session_id now) t c =
      (_, refl, establish-Holds laws cfg n session_id now t some_tunnels c)
  step-Goes (requests listen n req) t c = (_, refl, serve_request-Holds laws cfg F listen n req t c)
  step-Goes (closes n) t c = end_live-Goes laws cfg n t c

  run-Goes :
      (l : List Event) (t : Running B W)
      → Holds laws cfg 0 t
      → Goes laws cfg (run json crypto a split F cfg l t)
  unfolding run
  run-Goes [] t c = (t, refl, c)
  run-Goes (e ∷ l) t c =
      let (t', stepped, c') = step-Goes e t c in rw (stepped, run) (run-Goes l t' c')

  accept-opening :
      (t : Running B W) (remote_addr : String)
      → Holds laws cfg 0 t
      → (accept remote_addr t).opening ≡ (
          if leb_ℤ cfg.max_connections (pos (goroutines t))
          then t.opening
          else remote_addr ∷ t.opening)
  unfolding accept
  accept-opening t remote_addr c = elim (Option-cases (W.try_acquire t.sem)) [
    | inl full ↦ elim (Bool-cases (leb_ℤ cfg.max_connections (pos (goroutines t)))) [
      | inl no_room ↦ ground (arith, full, no_room)
      | inr room ↦
          let more : pos (suc (goroutines t)) ≤ℤ cfg.max_connections = ground (arith, room) in
          let (sem', there) =
            laws.try_acquire_room t.sem (rw c.size (omega (arith, more, c.held))) in
          absurd (Option.none-ne-some sem' (sym full ∙ there))
    ]
    | inr (sem', there) ↦
        let (_, _, within) = laws.try_acquire t.sem sem' there in
        let more : pos (suc (goroutines t)) ≤ℤ cfg.max_connections =
          omega (arith, rw c.size at within, c.held) in
        ground (arith, there, more)
  ]

  -- With limits on the connections and on the tunnels of a session that are not negative: whatever
  -- connections, logins, requests and ends of sessions a server goes through, in any order, no release
  -- of its semaphore panics. It has at most `max_connections` goroutines for connections, and accepts
  -- another one exactly if it has fewer. The status page shows at most `max_connections` connections,
  -- at most as many active tunnels as tunnels, and at most `max_tunnels` tunnels for each connection.
  pub server_bounded :
      (blocker : Option (AuthBlocker B)) (l : List Event)
      → pos 0 ≤ℤ cfg.max_connections
      → (t : Running B W) × (run json crypto a split F cfg l (start_server cfg blocker) ≡ some t)
        × (pos (goroutines t) ≤ℤ cfg.max_connections)
        × ((remote_addr : String)
            → (accept remote_addr t).opening ≡ (
                if leb_ℤ cfg.max_connections (pos (goroutines t))
                then t.opening
                else remote_addr ∷ t.opening))
        × (pos (length (get_status t)) ≤ℤ cfg.max_connections)
        × ((totals (get_status t)).active_tunnels ≤ (totals (get_status t)).total_tunnels)
        × ((totals (get_status t)).total_tunnels ≤ pos_part cfg.max_tunnels * length (get_status t))
  unfolding get_status
  server_bounded blocker l room =
      let (t, ran, c) = run-Goes l (start_server cfg blocker) (start_server-Holds blocker room) in
      let (fits, shown) = range_sessions-Fits cfg t.active_conns t.sessions c.fit in
      let fewer = length-keys t.active_conns t.live c.unique c.listed in
      let (active, total) = totals_limited cfg (get_status t) fits in
      (
        t,
        ran,
        omega (arith, c.held, c.within),
        λ remote_addr. accept-opening t remote_addr c,
        omega (arith, shown, fewer, c.held, c.within),
        active,
        total,
      )
