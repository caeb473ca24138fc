-- ===== src/Client/Tunnels.antt =====
-- pkg/client/client.go: the tunnels of a client, their creation, the reload of the configuration
-- and the reports on their health. `c.tunnels` is a map from names to handles. A handle that was
-- removed from it is not read again, so its `Active = false` has no place here.
pub mod Same
pub mod Named
pub mod Reload
use tbore.Base.{
  ℕ, ◌==◌, nat_eq, string_eq, String, if◌then◌else◌, Bool, true, false, not, ◌&&◌, ◌||◌, List, [],
  ◌∷◌, Option, none, some,
}
use mathlib.Core.Option
use tbore.Base.Int.{ℤ, pos, leb_ℤ}
use tbore.Base.GoMap.{GoMap, lookup, insert, delete}
use tbore.Config.{TunnelConfig, ClientConfig, ClientError, validate_client}
use tbore.Server.Session.{TunnelMsg}
use tbore.Client.Messages.{send_tunnel_info}
use tbore.Auth.Authenticator.{Authenticator}

-- The listener of a handle is known by its port.
pub record TunnelHandle : Type 0 where
  pub tunnel : TunnelConfig
  pub actual_port : ℕ
  pub active : Bool

-- `Client` without its connection, its lock, its path and its reload channel.
pub record Client : Type 0 where
  pub cfg : ClientConfig
  pub auth : Authenticator
  pub tunnels : GoMap String TunnelHandle

pub data NewResult : Type 0 where
  made : Client → NewResult
  refused : ClientError → NewResult

-- `authenticator` is `auth.NewAuthenticator`.
unfoldable pub new_client : (String → Authenticator) → ClientConfig → NewResult
new_client authenticator cfg = elim (validate_client cfg) [
  | some e ↦ refused e
  | none ↦ made (record { cfg = cfg; auth = authenticator cfg.token; tunnels = [] })
]

-- `createTunnel` up to its accept loop, with the message that it sends: `listen` is the port that
-- the server bound.
unfoldable pub create_tunnel : Option ℕ → TunnelConfig → Client → Client × Option TunnelMsg
create_tunnel listen tunnel c = elim listen [
  | none ↦ (c, none)
  | some actual_port ↦ (
    record c {
      tunnels =
          insert tunnel.name (record { tunnel = tunnel; actual_port = actual_port; active = true })
            c.tunnels;
    },
    some (send_tunnel_info tunnel actual_port),
  )
]

abbrev pub equal_ℤ : ℤ → ℤ → Bool
equal_ℤ a b = leb_ℤ a b && leb_ℤ b a

-- The condition on which a reload cancels a tunnel.
unfoldable pub is_changed : TunnelConfig → TunnelConfig → Bool
is_changed old new =
    (not (old.local_ip == new.local_ip) || not (equal_ℤ old.local_port new.local_port))
    || (not (old.remote_port == new.remote_port) || not (equal_ℤ old.timeout new.timeout))

-- `newTunnels[t.Name] = t` for each tunnel
unfoldable pub by_name : List TunnelConfig → GoMap String TunnelConfig → GoMap String TunnelConfig
by_name [] m = m
by_name (t ∷ ts) m = by_name ts (insert t.name t m)

-- What the callback of `Range` works on: `c.tunnels`, `newTunnels` and the ports that
-- `cancelPortForward` was called with, the last one first.
pub record Progress : Type 0 where
  pub tunnels : GoMap String TunnelHandle
  pub new_tunnels : GoMap String TunnelConfig
  pub cancelled : List ℕ

unfoldable pub cancel_tunnel : String → TunnelHandle → Progress → Progress
cancel_tunnel name handle p = record p {
  tunnels = delete name p.tunnels;
  cancelled = handle.actual_port ∷ p.cancelled;
}

-- The callback of `Range`.
unfoldable pub compare_tunnel : String → TunnelHandle → Progress → Progress
unfolding cancel_tunnel
compare_tunnel name handle p = elim (lookup name p.new_tunnels) [
  | none ↦ cancel_tunnel name handle p
  | some new ↦
      if is_changed handle.tunnel new
      then cancel_tunnel name handle p
      else record p { new_tunnels = delete name p.new_tunnels }
]

-- `c.tunnels.Range`
unfoldable pub compare_all : GoMap String TunnelHandle → Progress → Progress
unfolding compare_tunnel
compare_all [] p = p
compare_all ((name, handle) ∷ l) p = compare_all l (compare_tunnel name handle p)

abbrev pub values : GoMap String TunnelConfig → List TunnelConfig
values [] = []
values ((_, t) ∷ m) = t ∷ values m

-- The client, the ports cancelled and the tunnels that `createTunnel` is started for. `loaded` is
-- what `LoadClientConfig` returns.
pub record Reloaded : Type 0 where
  pub client : Client
  pub cancelled : List ℕ
  pub to_create : List TunnelConfig

unfoldable pub reload_tunnels : Option ClientConfig → Client → Reloaded
unfolding by_name compare_all
reload_tunnels loaded c = elim loaded [
  | none ↦ record { client = c; cancelled = []; to_create = [] }
  | some new_cfg ↦ elim (validate_client new_cfg) [
    | some _ ↦ record { client = c; cancelled = []; to_create = [] }
    | none ↦
        let p = compare_all c.tunnels (record {
          tunnels = c.tunnels;
          new_tunnels = by_name new_cfg.tunnels [];
          cancelled = [];
        }) in
        record {
          client = record c { tunnels = p.tunnels; cfg = new_cfg };
          cancelled = p.cancelled;
          to_create = values p.new_tunnels;
        }
  ]
]

-- The goroutines that a reload starts, each with what its `Listen` gave.
unfoldable pub create_all : (TunnelConfig → Option ℕ) → List TunnelConfig → Client → Client
unfolding create_tunnel
create_all listen [] c = c
create_all listen (t ∷ ts) c = create_all listen ts (create_tunnel (listen t) t c).0

pub record TunnelStatus : Type 0 where
  pub name : String
  pub local_ip : String
  pub local_port : ℤ
  pub remote_port : ℕ
  pub active : Bool

unfoldable pub get_tunnel_status : GoMap String TunnelHandle → List TunnelStatus
get_tunnel_status [] = []
get_tunnel_status ((name, handle) ∷ l) =
    record {
      name = name;
      local_ip = handle.tunnel.local_ip;
      local_port = handle.tunnel.local_port;
      remote_port = handle.actual_port;
      active = handle.active;
    }
    ∷ get_tunnel_status l
