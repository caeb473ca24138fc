-- ===== src/Server/Session/Requests.antt =====
-- The loop over a session's requests, by their type.
use tbore.Base.{ℕ, String, string_eq, ◌==◌, if◌then◌else◌, true, false, List, [], ◌∷◌, Option}
use tbore.Base.Int.{ℤ}
use tbore.Config.{ServerConfig}
use tbore.Server.Session.{
  Session, Reply, reply, ForwardMsg, ClientInfo, TunnelMsg, HealthMsg, TunnelState,
  handle_forward_request, handle_cancel_forward_request, handle_client_info_request,
  handle_tunnel_info_request, handle_health_check_request, handle_health_report_request,
}

pub record Request : Type 0 where
  pub kind : String
  pub payload : List ℕ

-- What the handlers ask of encoding/json, of `ssh.Unmarshal`, which leaves a message behind on an
-- error too, and of fmt.
pub record Formats : Type 0 where
  pub forward : List ℕ → ForwardMsg
  pub client_info : List ℕ → Option ClientInfo
  pub tunnel_info : List ℕ → Option TunnelMsg
  pub health_report : List ℕ → Option HealthMsg
  pub health_info : List (ℕ × TunnelState) → Option (List ℕ)
  pub format_addr : String → ℤ → String

module _ (F : Formats) (cfg : ServerConfig) where
  -- `listen` is what `net.Listen` would answer at the time of this request.
  unfoldable pub handle_request : (ℕ → Option ℕ) → Request → Session → Session × Reply
  handle_request listen req s =
      if req.kind == "tcpip-forward"
      then handle_forward_request cfg listen (F.forward req.payload) s
      else if req.kind == "cancel-tcpip-forward"
      then handle_cancel_forward_request (F.forward req.payload) s
      else if req.kind == "tbore-client-info"
      then handle_client_info_request (F.client_info req.payload) s
      else if req.kind == "tbore-tunnel-info"
      then handle_tunnel_info_request F.format_addr (F.tunnel_info req.payload) s
      else if req.kind == "tbore-health-check"
      then handle_health_check_request F.health_info s
      else if req.kind == "tbore-health-report"
      then handle_health_report_request (F.health_report req.payload) s
      else if req.kind == "keepalive@openssh.com"
      then (s, reply true)
      else (s, reply false)

  unfoldable pub handle_requests : List ((ℕ → Option ℕ) × Request) → Session → Session
  unfolding handle_request
  handle_requests [] s = s
  handle_requests ((listen, req) ∷ l) s = handle_requests l (handle_request listen req s).0
