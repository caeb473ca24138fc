-- ===== src/Server/Session/Ports.antt =====
-- Which ports a session can bind, and what the requests for them leave behind.
use tbore.Base.{
  ℕ, suc, ◌+◌, ◌*◌, ◌^◌, ◌≤◌, ◌<◌, ◌≡◌, ◌≢◌, sym, ap, ◌∙◌, ◌⊎◌, inl, inr, nat_eq, length, true,
  false, List, [], ◌∷◌, Option, none, some, arith,
}
use mathlib.Core.Bool.{false≢true}
use tbore.Base.Int.{pos, ◌≤ℤ◌}
use tbore.Base.GoMap.{lookup, lookup-insert, delete-insert}
use tbore.Config.{ServerConfig, is_valid_port}
use tbore.Server.Session.{
  Session, Reply, reply, HealthMsg, ForwardMsg, put_uint32, add_tunnel, close,
  handle_forward_request, handle_cancel_forward_request, handle_health_report_request,
  update_tunnel,
}
use tbore.Server.Session.Invariant.{IsValid, IsListen, mem, is_some, handle_forward_request_cases}

-- What the client reads from the four bytes of a reply.
unfoldable pub uint32 : List ℕ → ℕ
uint32 (a ∷ b ∷ c ∷ d ∷ []) = ((a * 256 + b) * 256 + c) * 256 + d
uint32 _ = 0

-- The four bytes of a 32-bit port read back as that port.
pub uint32-put_uint32 : (n : ℕ) → n < 2 ^ 32 → uint32 (put_uint32 n) ≡ n
unfolding uint32 put_uint32
uint32-put_uint32 n h = omega arith

-- What a granted request for a port other than 0 did.
granted_lem :
    (cfg : ServerConfig) (listen : ℕ → Option ℕ) (msg : ForwardMsg) (s s' : Session)
    (payload : List ℕ)
    → IsListen listen s
    → msg.port ≢ 0
    → handle_forward_request cfg listen msg s ≡ (s', record { accepted = true; payload = payload })
    → (s' ≡ add_tunnel cfg msg msg.port s)
      × (payload ≡ put_uint32 msg.port)
      × (is_valid_port cfg msg.port ≡ true)
      × (mem msg.port s.listening ≡ false)
granted_lem cfg listen msg s s' payload l nonzero h =
    elim (handle_forward_request_cases cfg listen msg s) [
      | inl refused ↦ absurd (
          false≢true (
            sym (ap (λ (r : Session × Reply). r.1.accepted) refused)
            ∙ ap (λ (r : Session × Reply). r.1.accepted) h))
      | inr (p, bound, inside, _, granted) ↦
          let same = l.asked msg.port p bound nonzero in
          let result = sym h ∙ granted in
          (
            ap (λ (r : Session × Reply). r.0) result ∙ ap (λ q. add_tunnel cfg msg q s) same,
            ap (λ (r : Session × Reply). r.1.payload) result ∙ ap put_uint32 same,
            ground arith,
            rw same at (l.free msg.port p bound),
          )
    ]

-- If `net.Listen` binds the port that it is asked for, and ports have 32 bits: a granted request
-- for a port other than 0 names a port in the configured range, tells it to the client, and leaves
-- a tunnel under it.
pub granted-in_range :
    (cfg : ServerConfig) (listen : ℕ → Option ℕ) (msg : ForwardMsg) (s s' : Session)
    (payload : List ℕ)
    → IsListen listen s
    → msg.port ≢ 0
    → cfg.max_port < 2 ^ 32
    → handle_forward_request cfg listen msg s ≡ (s', record { accepted = true; payload = payload })
    → (cfg.min_port ≤ msg.port)
      × (msg.port ≤ cfg.max_port)
      × (uint32 payload ≡ msg.port)
      × (is_some (lookup msg.port s'.tunnels) ≡ true)
unfolding is_valid_port add_tunnel
granted-in_range cfg listen msg s s' payload l nonzero bits h =
    let (added, told, valid, _) = granted_lem cfg listen msg s s' payload l nonzero h in
    let shown = lookup-insert msg.port msg.port s.next s.tunnels in
    (
      ground arith,
      ground arith,
      rw told (uint32-put_uint32 msg.port (ground arith)),
      rw added (ground (arith, shown)),
    )

-- A port outside the range is refused to a client that asks for it by its number, and nothing changes.
-- With port 0 the system chooses the port and no range is checked: where there is room for a tunnel and
-- the system binds that same port, the request is granted and the tunnel stands there.
pub granted_outside :
    (cfg : ServerConfig) (listen : ℕ → Option ℕ) (msg asked : ForwardMsg) (s : Session)
    → msg.port ≡ 0
    → asked.port ≢ 0
    → pos (suc (length s.tunnels)) ≤ℤ cfg.max_tunnels
    → listen 0 ≡ some asked.port
    → (asked.port < cfg.min_port) ⊎ (cfg.max_port < asked.port)
    → (handle_forward_request cfg listen asked s ≡ (s, reply false))
      × ((handle_forward_request cfg listen msg s).1.accepted ≡ true)
      × (is_some (lookup asked.port (handle_forward_request cfg listen msg s).0.tunnels) ≡ true)
unfolding handle_forward_request add_tunnel
granted_outside cfg listen msg asked s zero_port nonzero room bound outside =
    let p = asked.port in
    let bound' : listen msg.port ≡ some p = rw zero_port bound in
    let invalid : is_valid_port cfg p ≡ false = unfold is_valid_port in ground arith in
    let shown = lookup-insert p p s.next s.tunnels in
    (ground (arith, invalid, nonzero), ground arith, ground (arith, shown))

-- In a valid session, if `net.Listen` binds the port that it is asked for: cancelling a port other
-- than 0 that was just granted succeeds and leaves the tunnels and the listeners as they were
-- before it was granted.
pub cancel-forward :
    (cfg : ServerConfig) (listen : ℕ → Option ℕ) (msg : ForwardMsg) (s s' : Session)
    (payload : List ℕ)
    → IsValid cfg s
    → IsListen listen s
    → msg.port ≢ 0
    → handle_forward_request cfg listen msg s ≡ (s', record { accepted = true; payload = payload })
    → let (s'', answer) = handle_cancel_forward_request msg s' in
      (answer.accepted ≡ true) × (s''.tunnels ≡ s.tunnels) × (s''.listening ≡ s.listening)
unfolding handle_cancel_forward_request add_tunnel close
cancel-forward cfg listen msg s s' payload v l nonzero h =
    let (added, _, _, unbound) = granted_lem cfg listen msg s s' payload l nonzero h in
    let absent : lookup msg.port s.tunnels ≡ none = ground (arith, v.bound msg.port) in
    let shown = lookup-insert msg.port msg.port s.next s.tunnels in
    let gone = delete-insert msg.port s.next s.tunnels absent in
    rw added (ground (arith, shown, gone), ground (arith, shown, gone), ground (arith, shown))

-- In a valid session that has not bound port 0, a health report that names port 0 is accepted and
-- changes nothing.
health_report_lost :
    (cfg : ServerConfig) (s : Session) (info : HealthMsg)
    → IsValid cfg s
    → info.port ≡ 0
    → mem 0 s.listening ≡ false
    → handle_health_report_request (some info) s ≡ (s, reply true)
unfolding handle_health_report_request update_tunnel
health_report_lost cfg s info v h unbound =
    let absent : lookup info.port s.tunnels ≡ none = ground (arith, v.bound 0) in
    rw (absent, update_tunnel)
