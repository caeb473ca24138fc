-- ===== src/Server/Session/Lifetime.antt =====
-- A session from the login to its end.
use tbore.Base.{
  ℕ, ◌≡◌, refl, inl, inr, nat_eq, string_eq, String, if◌then◌else◌, Bool, true, false, not, ◌&&◌,
  List, [], ◌∷◌, Option, none, some, arith, Option-cases,
}
use tbore.Base.Int.{ℤ, pos, ◌≤ℤ◌}
use tbore.Base.GoMap.{GoMap, lookup}
use tbore.Config.{ServerConfig}
use tbore.Server.Session.{
  Session, ClientInfo, TunnelMsg, HealthMsg, Reply, TunnelState, new_session, health_info, close,
  close_all, end_session, handle_client_info_request, handle_tunnel_info_request,
  handle_health_report_request, handle_health_check_request,
}
use tbore.Server.Session.Invariant.{
  IsValid, IsListen, IsDistinct, mem, is_some, mem-close, close-IsDistinct,
  handle_forward_request-IsValid, handle_cancel_forward_request-IsValid, update_tunnel-IsValid,
}
use tbore.Server.Session.Requests.{Request, Formats, handle_request, handle_requests}

if-elim {ℓ κ} :
    {A : Type ℓ} (P : A → Type κ) (b : Bool) {x y : A} → P x → P y → P (if b then x else y)
if-elim P true p q = p
if-elim P false p q = q

pub new_session-IsValid :
    (cfg : ServerConfig) (id remote_addr : String) (now : ℕ)
    → pos 0 ≤ℤ cfg.max_tunnels
    → IsValid cfg (new_session id remote_addr now)
unfolding new_session lookup
new_session-IsValid cfg id remote_addr now h = record {
  unique = tt;
  limited = h;
  fresh = λ a k. refl;
  linked = λ p a k. absurd (ground arith);
  bound = λ p. refl;
  distinct = tt;
}

module _ (cfg : ServerConfig) (s : Session) (v : IsValid cfg s) where
  client_info-IsValid :
      (parsed : Option ClientInfo) → IsValid cfg (handle_client_info_request parsed s).0
  unfolding handle_client_info_request
  client_info-IsValid none = v
  client_info-IsValid (some info) = record {
    unique = v.unique;
    limited = v.limited;
    fresh = v.fresh;
    linked = v.linked;
    bound = v.bound;
    distinct = v.distinct;
  }

  tunnel_info-IsValid :
      (format_addr : String → ℤ → String) (parsed : Option TunnelMsg)
      → IsValid cfg (handle_tunnel_info_request format_addr parsed s).0
  unfolding handle_tunnel_info_request
  tunnel_info-IsValid format_addr none = v
  tunnel_info-IsValid format_addr (some info) =
      update_tunnel-IsValid cfg s v info.port _ (λ t. refl)

  health_report-IsValid :
      (parsed : Option HealthMsg) → IsValid cfg (handle_health_report_request parsed s).0
  unfolding handle_health_report_request
  health_report-IsValid none = v
  health_report-IsValid (some info) = update_tunnel-IsValid cfg s v info.port _ (λ t. refl)

  health_check-IsValid :
      (marshal : List (ℕ × TunnelState) → Option (List ℕ))
      → IsValid cfg (handle_health_check_request marshal s).0
  unfolding handle_health_check_request
  health_check-IsValid marshal = elim (Option-cases (marshal (health_info s.tunnels s.heap))) [
    | inl failed ↦ rw (failed, handle_health_check_request) v
    | inr (bytes, made) ↦ rw (made, handle_health_check_request) v
  ]

module _ (F : Formats) (cfg : ServerConfig) where
  handle_request-IsValid :
      (listen : ℕ → Option ℕ) (req : Request) (s : Session)
      → IsListen listen s
      → IsValid cfg s
      → IsValid cfg (handle_request F cfg listen req s).0
  unfolding handle_request
  handle_request-IsValid listen req s l v =
      let P = λ (r : Session × Reply). IsValid cfg r.0 in
      if-elim P _ (handle_forward_request-IsValid cfg s v listen _ l) (
        if-elim P _ (handle_cancel_forward_request-IsValid cfg s v _) (
          if-elim P _ (client_info-IsValid cfg s v _) (
            if-elim P _ (tunnel_info-IsValid cfg s v _ _) (
              if-elim P _ (health_check-IsValid cfg s v _)
                (if-elim P _ (health_report-IsValid cfg s v _) (if-elim P _ v v))))))

  -- Every `net.Listen` along the requests keeps its promise.
  abbrev pub Honest : List ((ℕ → Option ℕ) × Request) → Session → Type 0
  Honest [] s = Unit
  Honest ((listen, req) ∷ l) s = IsListen listen s × Honest l (handle_request F cfg listen req s).0

  handle_requests-IsValid :
      (l : List ((ℕ → Option ℕ) × Request)) (s : Session)
      → Honest l s
      → IsValid cfg s
      → IsValid cfg (handle_requests F cfg l s)
  unfolding handle_requests
  handle_requests-IsValid [] s h v = v
  handle_requests-IsValid ((listen, req) ∷ l) s h v =
      handle_requests-IsValid l _ h.1 (handle_request-IsValid listen req s h.0 v)

mem-close_all :
    (q : ℕ) (m : GoMap ℕ ℕ) (l : List ℕ)
    → IsDistinct l
    → mem q (close_all m l) ≡ (not (is_some (lookup q m)) && mem q l)
unfolding close_all lookup
mem-close_all q [] l d = refl
mem-close_all q ((p, a) ∷ m) l d =
    ground (arith, mem-close_all q m (close p l) (close-IsDistinct p l d), mem-close p q l d)

nil_of_mem : (l : List ℕ) → ((q : ℕ) → mem q l ≡ false) → l ≡ []
nil_of_mem [] h = refl
nil_of_mem (p ∷ l) h = absurd (ground (arith, h p))

-- When a session ends, no port of it stays bound.
end_session-listening :
    (cfg : ServerConfig) (s : Session) → IsValid cfg s → (end_session s).listening ≡ []
unfolding end_session
end_session-listening cfg s v =
    nil_of_mem _ (λ q. ground (arith, mem-close_all q s.tunnels s.listening v.distinct, v.bound q))

-- With a limit that is not negative, and if every `net.Listen` binds a port that the session has
-- not bound, the asked one unless that is 0: after any requests a session has at most
-- `max_tunnels` tunnels, each with an open listener and a record of its own, and its end closes
-- every listener.
pub session_lifetime :
    (F : Formats) (cfg : ServerConfig) (id remote_addr : String) (now : ℕ)
    (l : List ((ℕ → Option ℕ) × Request))
    → pos 0 ≤ℤ cfg.max_tunnels
    → Honest F cfg l (new_session id remote_addr now)
    → IsValid cfg (handle_requests F cfg l (new_session id remote_addr now))
      × ((end_session (handle_requests F cfg l (new_session id remote_addr now))).listening ≡ [])
session_lifetime formats cfg id remote_addr now l h honest =
    let v =
      handle_requests-IsValid formats cfg l _ honest
        (new_session-IsValid cfg id remote_addr now h) in
    (v, end_session-listening cfg _ v)
