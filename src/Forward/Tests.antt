-- ===== src/Forward/Tests.antt =====
-- The theorems about forwarding, at concrete inputs.
use mathlib.Core.Bool.{false≢true}
use tbore.Base.{
  if◌then◌else◌, ℕ, String, string_eq, Bool, not, ◌==◌, ◌≢◌, ap, some, ◌*◌, nat_eq, ◌≡◌, ◌↔◌, refl,
  true, false, List, [], ◌∷◌, arith,
}
use tbore.Base.Int.{pos, scale_ℤ, wrap64}
use tbore.Base.GoMap.{lookup, insert}
use tbore.Config.{is_zero, TunnelConfig}
use tbore.Auth.Blocker.{second}
use tbore.Server.Sample.{config, counting, counting-IsSemaphore}
use tbore.Server.Session.{
  Session, TunnelInfo, ForwardMsg, tunnel_state_error, tunnel_state_active, new_session, add_tunnel,
  handle_tunnel_info_request,
}
use tbore.Server.Session.Invariant.{IsValid, add_tunnel-IsValid}
use tbore.Server.Session.Lifetime.{new_session-IsValid}
use tbore.Config.{is_valid_port}
use tbore.Server.Connections.{Traffic, accept_connection, start_connection, end_connection, forward}
use tbore.Client.Messages.{send_tunnel_info}
use tbore.Forward.Channel.{
  ForwardedMsg, channel_request, is_rejected, handle_server_channel, handle_remote_connection,
}
use tbore.Forward.Channel.Target.{forwarded_to_local, early_connection_rejected}
use tbore.Forward.{
  Read, wrote, failed_after, Activity, reads, ticks, copy_buffer, copy_buffer_rw,
  copy_buffer_with_timestamp, conn_timeout_of, watch,
}
use tbore.Forward.Order.{
  IsPrefix, bytes_of, forwarded_in_order, copy_buffer_with_timestamp-copy_buffer,
}
use tbore.Forward.Timeout.{Expires, idle_timeout_iff}

abbrev chunk : Read
chunk = record { now = 5 * second; bytes = 1 ∷ 2 ∷ []; failed = false }

abbrev eof : Read
eof = record { now = 6 * second; bytes = 3 ∷ []; failed = true }

-- The server reads two chunks, of which the client takes three bytes in one read and fails to write
-- the last one.
abbrev hop : Read
hop = record { now = 7 * second; bytes = 1 ∷ 2 ∷ 1 ∷ []; failed = false }

arrived :
    IsPrefix
      (bytes_of (hop ∷ []))
      (copy_buffer (chunk ∷ chunk ∷ eof ∷ []) (wrote ∷ wrote ∷ [])).sent
unfolding copy_buffer
arrived = (2 ∷ [], refl)

forwarded_in_order_example :
    IsPrefix
      (copy_buffer_rw (hop ∷ []) (failed_after 2 ∷ [])).sent
      (bytes_of (chunk ∷ chunk ∷ eof ∷ []))
forwarded_in_order_example =
    forwarded_in_order (chunk ∷ chunk ∷ eof ∷ []) (hop ∷ []) (wrote ∷ wrote ∷ [])
      (failed_after 2 ∷ []) arrived

copy_buffer_with_timestamp-copy_buffer_example :
    (copy_buffer_with_timestamp (chunk ∷ eof ∷ []) (wrote ∷ []) 4).0
    ≡ copy_buffer (chunk ∷ eof ∷ []) (wrote ∷ [])
copy_buffer_with_timestamp-copy_buffer_example =
    copy_buffer_with_timestamp-copy_buffer (chunk ∷ eof ∷ []) (wrote ∷ []) 4

abbrev silence : List Activity
silence = reads (5 * second) ∷ ticks (6 * second) ∷ ticks (8 * second) ∷ []

idle_timeout_iff_example :
    ((watch
        (conn_timeout_of (wrap64 (scale_ℤ second (pos 3))))
        silence
        (record { last_activity_time = 0; is_closed = false })).is_closed
      ≡ true)
    ↔ ((is_zero (pos 3) ≡ false) × Expires 3 0 silence)
idle_timeout_iff_example = idle_timeout_iff (pos 3) silence 0 (omega arith) (omega arith)

abbrev web : TunnelConfig
web = record {
  name = "web";
  local_ip = "127.0.0.1:80";
  local_port = pos 80;
  remote_port = 2000;
  timeout = pos 0;
}

abbrev fresh_session : Session
fresh_session = new_session "sess_1" "10.0.0.1:4000" 5

abbrev ask_2000 : ForwardMsg
ask_2000 = record { addr = "0.0.0.0"; port = 2000 }

abbrev session : Session
session = add_tunnel config ask_2000 2000 fresh_session

session-IsValid : IsValid config session
unfolding new_session
session-IsValid =
    add_tunnel-IsValid config fresh_session
      (new_session-IsValid config "sess_1" "10.0.0.1:4000" 5 (omega arith)) ask_2000 2000 refl
      (omega arith)

bound : lookup 2000 session.tunnels ≡ some 0
unfolding lookup add_tunnel insert new_session nat_eq
bound = refl

-- Any address with a port can be dialled, and this one has none.
abbrev dial : String → Bool
dial addr = not (addr == "0.0.0.0")

abbrev origin_of : String → String × ℕ
origin_of addr = (addr, 9)

no_port : dial "0.0.0.0" ≡ false
unfolding string_eq
no_port = refl

local_known : web.local_ip ≢ ""
unfolding string_eq
local_known p = false≢true (ap (λ s. s == "") p)

forwarded_to_local_example :
    (msg : ForwardedMsg) × (channel_request origin_of "10.0.0.9" 2000
        (handle_tunnel_info_request (λ ip port. ip) (some (send_tunnel_info web 2000)) session).0
      ≡ some msg)
    × ((msg.origin_addr, msg.origin_port) ≡ origin_of "10.0.0.9")
    × (handle_server_channel dial true msg ≡ handle_remote_connection (λ ip port. ip) dial web)
forwarded_to_local_example =
    forwarded_to_local config session web 2000 0 (λ ip port. ip) origin_of "10.0.0.9" dial
      session-IsValid bound local_known

some_addr : ask_2000.addr ≢ ""
unfolding string_eq
some_addr p = false≢true (ap (λ s. s == "") p)

abbrev traffic : Traffic counting
traffic = record { session = fresh_session; sems = []; accepted = []; serving = [] }

early_connection_rejected_example :
    let t1 =
      start_connection 2000
        (accept_connection 2000 (pos 0) (forward config (λ p. some p) ask_2000 traffic)) in
    (opened : ForwardedMsg) × (t2 : Traffic counting) × (x : TunnelInfo) × (channel_request
        origin_of "10.0.0.9" 2000 t1.session
      ≡ some opened)
    × (opened.addr ≡ ask_2000.addr)
    × (end_connection
          (is_rejected (handle_server_channel dial true opened))
          (pos 1)
          fresh_session.next
          t1
        ≡ some t2)
    × (lookup 2000 t2.session.tunnels ≡ some fresh_session.next)
    × (lookup fresh_session.next t2.session.heap ≡ some x)
    × (x.state ≡ (if dial ask_2000.addr then tunnel_state_active else tunnel_state_error))
early_connection_rejected_example =
    early_connection_rejected counting-IsSemaphore config (λ p. some p) ask_2000 traffic origin_of
      "10.0.0.9" dial (pos 0) (pos 1) (unfold is_valid_port nat_eq in refl)
      (unfold new_session in omega arith) refl (omega arith) some_addr
