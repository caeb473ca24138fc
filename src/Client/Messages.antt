-- ===== src/Client/Messages.antt =====
-- pkg/client/client.go: what a client tells the server. A message is the record that is encoded;
-- the server's handlers take the same records once they are decoded.
pub mod Served
pub mod Round
use tbore.Base.{ℕ, if◌then◌else◌, Bool, true, false, String, List, [], ◌∷◌}
use tbore.Base.Int.{ℤ, pos}
use tbore.Config.{TunnelConfig, ClientConfig}
use tbore.Server.Session.{ClientInfo, TunnelMsg, HealthMsg, ForwardMsg}

unfoldable pub send_client_info : ClientConfig → ClientInfo
send_client_info cfg = record { project = cfg.project; region = cfg.region }

unfoldable pub send_tunnel_info : TunnelConfig → ℕ → TunnelMsg
send_tunnel_info tunnel actual_port = record {
  port = actual_port;
  name = tunnel.name;
  local_ip = tunnel.local_ip;
  local_port = tunnel.local_port;
  timeout = tunnel.timeout;
}

unfoldable pub report_tunnel_health : ℕ → ℤ → HealthMsg
report_tunnel_health remote_port status = record { port = remote_port; status = status }

-- `reachable` says whether `net.DialTimeout` reached the local end.
unfoldable pub check_tunnel_health : Bool → TunnelConfig → HealthMsg
unfolding report_tunnel_health
check_tunnel_health reachable tunnel =
    if reachable
    then report_tunnel_health tunnel.remote_port (pos 0)
    else report_tunnel_health tunnel.remote_port (pos 2)

unfoldable pub cancel_port_forward : ℕ → ForwardMsg
cancel_port_forward port = record { addr = "0.0.0.0"; port = port }

-- The reports of one tick of healthCheckLoop, in any order that its goroutines take.
unfoldable pub health_round : (TunnelConfig → Bool) → List TunnelConfig → List HealthMsg
unfolding check_tunnel_health
health_round reachable [] = []
health_round reachable (tunnel ∷ l) =
    check_tunnel_health (reachable tunnel) tunnel ∷ health_round reachable l
