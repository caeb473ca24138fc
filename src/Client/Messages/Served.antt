-- ===== src/Client/Messages/Served.antt =====
-- What the messages of a client do to its session on the server.
use tbore.Base.{
  ℕ, ◌*◌, ◌<◌, ◌^◌, ◌≡◌, ◌≢◌, refl, nat_eq, String, if◌then◌else◌, Bool, true, false, some, arith,
}
use tbore.Base.Int.{ℤ, pos, pos_part, ◌≤ℤ◌, negsuc, wrap64, wrap64_pos, scale_ℤ}
use tbore.Base.GoMap.{lookup, insert, lookup-insert}
use tbore.Config.{TunnelConfig, ServerConfig}
use tbore.Auth.Blocker.{second}
use tbore.Server.Session.{
  Session, TunnelInfo, tunnel_state_active, tunnel_state_error, update_tunnel,
  handle_tunnel_info_request, handle_health_report_request,
}
use tbore.Server.Session.Invariant.{IsValid}
use tbore.Client.Messages.{send_tunnel_info, report_tunnel_health, check_tunnel_health}

module _ (cfg : ServerConfig) (s : Session) (v : IsValid cfg s) (port a : ℕ)
    (bound : lookup port s.tunnels ≡ some a) where
  pub update_tunnel_lem :
      (f : TunnelInfo → TunnelInfo)
      → (t : TunnelInfo) × (t.remote_port ≡ port)
        × (update_tunnel port f s ≡ record s { heap = insert a (f t) s.heap })
  unfolding update_tunnel
  update_tunnel_lem f =
      let (t, stands, own) = v.linked port a bound in (t, own, ground (arith, bound, stands))

-- `t` stands at the address `a` of `s'`, and nothing else of the session `s` has changed.
pub record IsUpdate (s s' : Session) (a : ℕ) (t : TunnelInfo) : Type 0 where
  pub here : lookup a s'.heap ≡ some t
  pub elsewhere : (j : ℕ) → j ≢ a → lookup j s'.heap ≡ lookup j s.heap
  pub tunnels : s'.tunnels ≡ s.tunnels
  pub listening : s'.listening ≡ s.listening

insert-IsUpdate :
    (s : Session) (a : ℕ) (t : TunnelInfo) → IsUpdate s (record s { heap = insert a t s.heap }) a t
insert-IsUpdate s a t = record {
  here = ground (arith, lookup-insert a a t s.heap);
  elsewhere = λ j other. ground (arith, lookup-insert j a t s.heap, other);
  tunnels = refl;
  listening = refl;
}

timeout_lem :
    (n : ℤ)
    → pos 0 ≤ℤ n
    → second * pos_part n < 2 ^ 63
    → wrap64 (scale_ℤ second n) ≡ pos (second * pos_part n)
timeout_lem (pos n) h small = wrap64_pos (second * n) small
timeout_lem (negsuc n) h small = absurd (omega arith)

module _ (cfg : ServerConfig) (s : Session) (v : IsValid cfg s) (tunnel : TunnelConfig) (port a : ℕ)
    (bound : lookup port s.tunnels ≡ some a) where
  -- In a valid session with a tunnel on the port that the client was told: once the client has sent
  -- its information on a tunnel, whose timeout is not negative and fits 63 bits in nanoseconds, the
  -- server's record of that port carries the name, the local end and the timeout of the client's
  -- configuration, and nothing else of the session has changed.
  announced :
      (format_addr : String → ℤ → String)
      → pos 0 ≤ℤ tunnel.timeout
      → second * pos_part tunnel.timeout < 2 ^ 63
      → (t : TunnelInfo) × IsUpdate s
          (handle_tunnel_info_request format_addr (some (send_tunnel_info tunnel port)) s).0
          a
          t
        × (t.remote_port ≡ port)
        × (t.name ≡ tunnel.name)
        × (t.local_addr ≡ format_addr tunnel.local_ip tunnel.local_port)
        × (t.conn_timeout ≡ pos (second * pos_part tunnel.timeout))
  unfolding handle_tunnel_info_request send_tunnel_info
  announced format_addr positive small =
      let f : TunnelInfo → TunnelInfo = λ t. record t {
        name = tunnel.name;
        local_addr = format_addr tunnel.local_ip tunnel.local_port;
        conn_timeout = wrap64 (scale_ℤ second tunnel.timeout);
      } in
      let (t, own, same) = update_tunnel_lem cfg s v port a bound f in
      (
        f t,
        rw same (insert-IsUpdate s a (f t)),
        own,
        refl,
        refl,
        timeout_lem tunnel.timeout positive small,
      )

  -- In a valid session with a tunnel on the port that the configuration names: a health check of
  -- the client sets the state of that tunnel, active if the local end was reached and error if not,
  -- and nothing else of the session has changed.
  checked :
      (reachable : Bool)
      → tunnel.remote_port ≡ port
      → (t : TunnelInfo) × IsUpdate s
          (handle_health_report_request (some (check_tunnel_health reachable tunnel)) s).0
          a
          t
        × (t.remote_port ≡ port)
        × (t.state ≡ (if reachable then tunnel_state_active else tunnel_state_error))
  unfolding handle_health_report_request check_tunnel_health report_tunnel_health
  checked true named =
      let f : TunnelInfo → TunnelInfo = λ t. record t { state = pos 0 } in
      let (t, own, same) = update_tunnel_lem cfg s v port a bound f in
      (f t, rw (named, same) (insert-IsUpdate s a (f t)), own, refl)
  checked false named =
      let f : TunnelInfo → TunnelInfo = λ t. record t { state = pos 2 } in
      let (t, own, same) = update_tunnel_lem cfg s v port a bound f in
      (f t, rw (named, same) (insert-IsUpdate s a (f t)), own, refl)
