-- ===== src/Forward/Channel.antt =====
-- How a connection on a tunnel's port finds its local end: the channel that handleClientConnection of
-- pkg/server/server.go opens, and handleServerChannels and handleRemoteConnection of
-- pkg/client/client.go up to their copies. A message is the record that is encoded.
pub mod Target
use tbore.Base.{
  ℕ, ◌==◌, nat_eq, string_eq, String, if◌then◌else◌, Bool, true, false, Option, none, some,
}
use tbore.Base.Int.{ℤ}
use tbore.Base.GoMap.{lookup}
use tbore.Config.{TunnelConfig}
use tbore.Server.Session.{Session, TunnelInfo}

pub record ForwardedMsg : Type 0 where
  pub addr : String
  pub port : ℕ
  pub origin_addr : String
  pub origin_port : ℕ

-- What the goroutine asks `OpenChannel` for, if it comes so far. `origin` is the host and the port of
-- a remote address.
unfoldable pub channel_request : (String → String × ℕ) → String → ℕ → Session → Option ForwardedMsg
channel_request origin user_addr actual_port s = elim (lookup actual_port s.tunnels) [
  | none ↦ none
  | some a ↦ elim (lookup a s.heap) [
    | none ↦ none
    | some tunnel ↦
        if tunnel.local_addr == ""
        then none
        else some (record {
          addr = tunnel.local_addr;
          port = actual_port;
          origin_addr = (origin user_addr).0;
          origin_port = (origin user_addr).1;
        })
  ]
]

-- The channel is rejected, it cannot be accepted, or its bytes go to this address.
pub data Opened : Type 0 where
  connection_failed no_channel : Opened
  forwards_to : String → Opened

-- `dial` says whether `net.DialTimeout` reaches an address, and `accepts` whether `Accept` works.
unfoldable pub handle_server_channel : (String → Bool) → Bool → ForwardedMsg → Opened
handle_server_channel dial accepts msg =
    if dial msg.addr
    then if accepts then forwards_to msg.addr else no_channel
    else connection_failed

-- `OpenChannel` of the server fails.
unfoldable pub is_rejected : Opened → Bool
is_rejected connection_failed = true
is_rejected no_channel = false
is_rejected (forwards_to addr) = false

-- The other way, from the listener of the tunnel.
unfoldable pub handle_remote_connection :
    (String → ℤ → String) → (String → Bool) → TunnelConfig → Opened
handle_remote_connection format_addr dial tunnel =
    let addr = format_addr tunnel.local_ip tunnel.local_port in
    if dial addr then forwards_to addr else connection_failed
