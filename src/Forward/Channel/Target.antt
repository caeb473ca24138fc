-- ===== src/Forward/Channel/Target.antt =====
-- Where a connection arrives, before and after the client has told the server of its tunnel.
use tbore.Base.{
  if◌then◌else◌, Option, suc, length, ℕ, ◌≡◌, ◌≢◌, refl, nat_eq, string_eq, String, Bool, true,
  some, arith,
}
use tbore.Base.Int.{ℤ, pos, ◌≤ℤ◌, increment32, wrap64, scale_ℤ}
use tbore.Base.GoMap.{lookup, insert, lookup-insert}
use tbore.Config.{TunnelConfig, ServerConfig, is_valid_port}
use tbore.Auth.Blocker.{second}
use tbore.Server.Session.{
  Session, TunnelInfo, ForwardMsg, close, tunnel_state_error, tunnel_state_active, update_tunnel,
  new_tunnel, add_tunnel, handle_tunnel_info_request,
}
use tbore.Server.Session.Invariant.{IsValid}
use tbore.Server.Connections.{
  Semaphore, IsSemaphore, Traffic, accept_connection, start_connection, end_connection,
  leave_tunnel, forward,
}
use tbore.Server.Connections.Race.{forward_lem, lookup-insert_self}
use tbore.Client.Messages.{send_tunnel_info}
use tbore.Client.Messages.Served.{update_tunnel_lem}
use tbore.Forward.Channel.{
  ForwardedMsg, channel_request, is_rejected, handle_server_channel, handle_remote_connection,
}

-- In a valid session with a tunnel on the port that the client was told: once the client has sent its
-- information on the tunnel, a connection on that port is forwarded with its origin, and the client
-- dials the local end of its own configuration for it, as it does for a connection on its listener.
pub forwarded_to_local :
    (cfg : ServerConfig) (s : Session) (tunnel : TunnelConfig) (port a : ℕ)
    (format_addr : String → ℤ → String) (origin : String → String × ℕ) (user_addr : String)
    (dial : String → Bool)
    → IsValid cfg s
    → lookup port s.tunnels ≡ some a
    → format_addr tunnel.local_ip tunnel.local_port ≢ ""
    → (msg : ForwardedMsg) × (channel_request origin user_addr port
          (handle_tunnel_info_request format_addr (some (send_tunnel_info tunnel port)) s).0
        ≡ some msg)
      × ((msg.origin_addr, msg.origin_port) ≡ origin user_addr)
      × (handle_server_channel dial true msg ≡ handle_remote_connection format_addr dial tunnel)
unfolding channel_request handle_server_channel handle_remote_connection handle_tunnel_info_request
    send_tunnel_info
forwarded_to_local cfg s tunnel port a format_addr origin user_addr dial v bound known =
    let f : TunnelInfo → TunnelInfo = λ t. record t {
      name = tunnel.name;
      local_addr = format_addr tunnel.local_ip tunnel.local_port;
      conn_timeout = wrap64 (scale_ℤ second tunnel.timeout);
    } in
    let (t, own, same) = update_tunnel_lem cfg s v port a bound f in
    (
      record {
        addr = format_addr tunnel.local_ip tunnel.local_port;
        port = port;
        origin_addr = (origin user_addr).0;
        origin_port = (origin user_addr).1;
      },
      rw same (ground (arith, bound, lookup-insert a a (f t) s.heap, known)),
      refl,
      refl,
    )

module _ {W : Semaphore} (laws : IsSemaphore W) (t : Traffic W) (p a : ℕ) (x : TunnelInfo)
    (sem : W.Sem) (seen : ℤ) (bound : lookup p t.session.tunnels ≡ some a)
    (stands : lookup a t.session.heap ≡ some x) (guarded : lookup a t.sems ≡ some sem)
    (room : pos (suc (laws.held sem)) ≤ℤ laws.size sem) where
  -- The server when the goroutine of a connection on the tunnel has read it.
  abbrev started : Traffic W
  started = start_connection p (accept_connection p seen t)

  busy : TunnelInfo
  busy = record x { state = tunnel_state_active; active_conns = increment32 seen }

  started_lem :
      (sem' : W.Sem)
      → W.try_acquire sem ≡ some sem'
      → (started.session.tunnels ≡ t.session.tunnels)
        × (lookup a started.session.heap ≡ some busy)
        × (lookup a started.sems ≡ some sem')
  unfolding start_connection accept_connection update_tunnel busy
  started_lem sem' acquired = (
    ground (arith, bound, stands, guarded, acquired),
    ground (arith, bound, stands, guarded, acquired, lookup-insert_self a busy t.session.heap),
    ground (arith, bound, stands, guarded, acquired, lookup-insert_self a sem' t.sems),
  )

  -- The end of that connection.
  ended_lem :
      (failed : Bool) (seen' : ℤ)
      → (t' : Traffic W) × (end_connection failed seen' a started ≡ some t')
        × (lookup p t'.session.tunnels ≡ some a)
        × (lookup a t'.session.heap ≡ some (leave_tunnel failed seen' busy))
  unfolding end_connection
  ended_lem failed seen' =
      let (sem', acquired) = laws.try_acquire_room sem room in
      let (more, _, _) = laws.try_acquire sem sem' acquired in
      let (sem'', freed, _, _) = laws.release sem' (omega (arith, more)) in
      let (same, there, guarded') = started_lem sem' acquired in
      let written = lookup-insert_self a (leave_tunnel failed seen' busy) started.session.heap in
      (
        record started {
          session = record started.session {
            heap = insert a (leave_tunnel failed seen' busy) started.session.heap;
          };
          sems = insert a sem'' started.sems;
          serving = close a started.serving;
        },
        ground (arith, guarded', freed, there),
        rw same bound,
        written,
      )

-- If a forward on a valid port is granted, where a tunnel may have a connection: a connection that
-- comes before the information on the tunnel is forwarded to the address of the forward request, and not
-- to the local end of the tunnel. If the client reaches no such address, such as one without a port,
-- the end of the connection leaves the new tunnel in error; if it does, the tunnel is active.
pub early_connection_rejected :
    {W : Semaphore} (laws : IsSemaphore W) (cfg : ServerConfig) (listen : ℕ → Option ℕ)
    (msg : ForwardMsg) (t : Traffic W) (origin : String → String × ℕ) (user_addr : String)
    (dial : String → Bool) (seen seen' : ℤ)
    → is_valid_port cfg msg.port ≡ true
    → pos (suc (length t.session.tunnels)) ≤ℤ cfg.max_tunnels
    → listen msg.port ≡ some msg.port
    → pos 1 ≤ℤ cfg.max_conns_per_tunnel
    → msg.addr ≢ ""
    → let t1 =
        start_connection msg.port (accept_connection msg.port seen (forward cfg listen msg t)) in
      (opened : ForwardedMsg) × (t2 : Traffic W) × (x : TunnelInfo) × (channel_request origin
          user_addr msg.port t1.session
        ≡ some opened)
      × (opened.addr ≡ msg.addr)
      × (end_connection
            (is_rejected (handle_server_channel dial true opened))
            seen'
            t.session.next
            t1
          ≡ some t2)
      × (lookup msg.port t2.session.tunnels ≡ some t.session.next)
      × (lookup t.session.next t2.session.heap ≡ some x)
      × (x.state ≡ (if dial msg.addr then tunnel_state_active else tunnel_state_error))
unfolding channel_request handle_server_channel add_tunnel new_tunnel leave_tunnel is_rejected busy
early_connection_rejected {W} laws cfg listen msg t origin user_addr dial seen seen' valid room
      listens conns given =
    let p = msg.port in
    let a = t.session.next in
    let new = W.new_weighted cfg.max_conns_per_tunnel in
    let (empty, size) = laws.new_weighted cfg.max_conns_per_tunnel in
    let free : pos (suc (laws.held new)) ≤ℤ laws.size new = rw (empty, size) conns in
    let f : Traffic W = record t {
      session = add_tunnel cfg msg p t.session;
      sems = insert a new t.sems;
    } in
    let granted : forward cfg listen msg t ≡ f = forward_lem cfg listen msg t valid room listens in
    let x = new_tunnel cfg msg p in
    let bound = lookup-insert_self p a t.session.tunnels in
    let stands = lookup-insert_self a x t.session.heap in
    let guarded = lookup-insert_self a new t.sems in
    let opened : ForwardedMsg = record {
      addr = msg.addr;
      port = p;
      origin_addr = (origin user_addr).0;
      origin_port = (origin user_addr).1;
    } in
    let failed = is_rejected (handle_server_channel dial true opened) in
    let (sem', acquired) = laws.try_acquire_room new free in
    let (same, there, _) =
      started_lem laws f p a x new seen bound stands guarded free sem' acquired in
    let (t2, ended, tunnels, left) =
      ended_lem laws f p a x new seen bound stands guarded free failed seen' in
    rw granted (
      opened,
      t2,
      leave_tunnel failed seen' (busy laws f p a x new seen bound stands guarded free),
      ground (arith, same, bound, there, given),
      refl,
      ended,
      tunnels,
      left,
      ground arith,
    )
