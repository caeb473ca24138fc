-- ===== src/Server/Live/Requests.antt =====
-- The number of tunnels of a session, by the request that it serves.
use tbore.Base.{ℕ, String, length, List, Option, arith, inl, inr, nat_eq, string_eq}
use tbore.Base.Int.{ℤ, pos, ◌≤ℤ◌}
use tbore.Base.GoMap.{length-insert, length-delete-le}
use tbore.Config.{ServerConfig}
use tbore.Server.Session.{
  Session, ForwardMsg, TunnelMsg, HealthMsg, ClientInfo, Reply, TunnelState, add_tunnel,
  update_tunnel, handle_forward_request, handle_cancel_forward_request, handle_client_info_request,
  handle_tunnel_info_request, handle_health_check_request, handle_health_report_request,
}
use tbore.Server.Session.Invariant.{handle_forward_request_cases}
use tbore.Server.Session.Requests.{Request, Formats, handle_request}

-- A request leaves the number of tunnels of a session within the limit.
module _ (cfg : ServerConfig) (s : Session) (fits : pos (length s.tunnels) ≤ℤ cfg.max_tunnels) where
  abbrev pub Fits : Session × Reply → Type 0
  Fits r = pos (length r.0.tunnels) ≤ℤ cfg.max_tunnels

  forward-Fits :
      (listen : ℕ → Option ℕ) (msg : ForwardMsg) → Fits (handle_forward_request cfg listen msg s)
  forward-Fits listen msg = elim (handle_forward_request_cases cfg listen msg s) [
    | inl refused ↦ rw refused fits
    | inr (p, bound, _, room, granted) ↦
        rw granted
          (unfold add_tunnel in ground (arith, length-insert p s.next s.tunnels, room, fits))
  ]

  cancel-Fits : (msg : ForwardMsg) → Fits (handle_cancel_forward_request msg s)
  unfolding handle_cancel_forward_request
  cancel-Fits msg = ground (arith, length-delete-le msg.port s.tunnels, fits)

  client_info-Fits : (info : Option ClientInfo) → Fits (handle_client_info_request info s)
  unfolding handle_client_info_request
  client_info-Fits info = ground (arith, fits)

  tunnel_info-Fits :
      (format_addr : String → ℤ → String) (info : Option TunnelMsg)
      → Fits (handle_tunnel_info_request format_addr info s)
  unfolding handle_tunnel_info_request update_tunnel
  tunnel_info-Fits format_addr info = ground (arith, fits)

  health_check-Fits :
      (marshal : List (ℕ × TunnelState) → Option (List ℕ))
      → Fits (handle_health_check_request marshal s)
  unfolding handle_health_check_request
  health_check-Fits marshal = ground (arith, fits)

  health_report-Fits : (info : Option HealthMsg) → Fits (handle_health_report_request info s)
  unfolding handle_health_report_request update_tunnel
  health_report-Fits info = ground (arith, fits)

  pub handle_request-Fits :
      (F : Formats) (listen : ℕ → Option ℕ) (req : Request)
      → Fits (handle_request F cfg listen req s)
  unfolding handle_request
  handle_request-Fits formats listen req = ground (
    arith,
    forward-Fits listen (formats.forward req.payload),
    cancel-Fits (formats.forward req.payload),
    client_info-Fits (formats.client_info req.payload),
    tunnel_info-Fits formats.format_addr (formats.tunnel_info req.payload),
    health_check-Fits formats.health_info,
    health_report-Fits (formats.health_report req.payload),
    fits,
  )
