-- ===== src/Client/Messages/Round.antt =====
-- What a round of health checks leaves on the server.
use tbore.Base.{
  ℕ, ◌≡◌, ◌≢◌, refl, sym, ap, ◌∙◌, All, nat_eq, ◌++◌, if◌then◌else◌, Bool, List, [], ◌∷◌, some,
  arith, Option-cases, inl, inr,
}
use mathlib.Core.Option.{some-injective}
use tbore.Base.GoMap.{lookup, insert, lookup-insert}
use tbore.Config.{TunnelConfig, ServerConfig}
use tbore.Server.Session.{
  Session, TunnelInfo, HealthMsg, tunnel_state_active, tunnel_state_error, update_tunnel,
  handle_health_report_request,
}
use tbore.Server.Session.Invariant.{IsValid, update_tunnel-IsValid}
use tbore.Client.Messages.{health_round, check_tunnel_health, report_tunnel_health}

-- The server takes the reports one after the other.
unfoldable pub serve_reports : List HealthMsg → Session → Session
serve_reports [] s = s
serve_reports (m ∷ l) s = serve_reports l (handle_health_report_request (some m) s).0

module _ (cfg : ServerConfig) (port a : ℕ) where
  -- A valid session with the tunnel `x` on the port, at the address `a`.
  record Stands (s₀ s : Session) (x : TunnelInfo) : Type 0 where
    valid : IsValid cfg s
    bound : lookup port s.tunnels ≡ some a
    stands : lookup a s.heap ≡ some x
    own : x.remote_port ≡ port
    tunnels : s.tunnels ≡ s₀.tunnels
    listening : s.listening ≡ s₀.listening

  report_here :
      (s₀ s : Session) (x : TunnelInfo) (m : HealthMsg)
      → m.port ≡ port
      → Stands s₀ s x
      → Stands s₀ (handle_health_report_request (some m) s).0 (record x { state = m.status })
  unfolding handle_health_report_request
  report_here s₀ s x m same h =
      let f : TunnelInfo → TunnelInfo = λ t. record t { state = m.status } in
      let valid = update_tunnel-IsValid cfg s h.valid m.port f (λ t. refl) in
      let written : update_tunnel m.port f s ≡ record s { heap = insert a (f x) s.heap } =
        unfold update_tunnel in ground (arith, same, h.bound, h.stands) in
      record {
        valid = valid;
        bound = rw written h.bound;
        stands = rw written (ground (arith, lookup-insert a a (f x) s.heap));
        own = h.own;
        tunnels = rw written h.tunnels;
        listening = rw written h.listening;
      }

  report_other :
      (s₀ s : Session) (x : TunnelInfo) (m : HealthMsg)
      → m.port ≢ port
      → Stands s₀ s x
      → Stands s₀ (handle_health_report_request (some m) s).0 x
  unfolding handle_health_report_request
  report_other s₀ s x m other h =
      let f : TunnelInfo → TunnelInfo = λ t. record t { state = m.status } in
      let valid = update_tunnel-IsValid cfg s h.valid m.port f (λ t. refl) in
      elim (Option-cases (lookup m.port s.tunnels)) [
        | inl missing ↦
            let written : update_tunnel m.port f s ≡ s =
              unfold update_tunnel in ground (arith, missing) in
            rw written h
        | inr (b, found) ↦
            let (y, held, owned) = h.valid.linked m.port b found in
            let apart : a ≢ b = λ e. other (
              sym owned
              ∙ ap (λ (z : TunnelInfo). z.remote_port)
                  (some-injective y x (sym held ∙ ap (λ k. lookup k s.heap) (sym e) ∙ h.stands))
              ∙ h.own) in
            let written : update_tunnel m.port f s ≡ record s { heap = insert b (f y) s.heap } =
              unfold update_tunnel in ground (arith, found, held) in
            record {
              valid = valid;
              bound = rw written h.bound;
              stands = rw written (ground (arith, lookup-insert a b (f y) s.heap, h.stands, apart));
              own = h.own;
              tunnels = rw written h.tunnels;
              listening = rw written h.listening;
            }
      ]

  module _ (reachable : TunnelConfig → Bool) where
    check_tunnel_health_lem :
        (t : TunnelConfig)
        → ((check_tunnel_health (reachable t) t).port ≡ t.remote_port)
          × ((check_tunnel_health (reachable t) t).status
              ≡ (if reachable t then tunnel_state_active else tunnel_state_error))
    unfolding check_tunnel_health report_tunnel_health
    check_tunnel_health_lem t = (ground arith, ground arith)

    round_others :
        (l : List TunnelConfig) (s₀ s : Session) (x : TunnelInfo)
        → All (λ u. u.remote_port ≢ port) l
        → Stands s₀ s x
        → Stands s₀ (serve_reports (health_round reachable l) s) x
    unfolding serve_reports health_round
    round_others [] s₀ s x others h = h
    round_others (u ∷ l) s₀ s x others h = round_others l s₀ _ x others.1 (
        report_other s₀ s x (check_tunnel_health (reachable u) u)
          (λ e. others.0 (sym (check_tunnel_health_lem u).0 ∙ e)) h)

    round_before :
        (before after : List TunnelConfig) (t : TunnelConfig) (s₀ s : Session) (x : TunnelInfo)
        → t.remote_port ≡ port
        → All (λ u. u.remote_port ≢ port) after
        → Stands s₀ s x
        → (y : TunnelInfo) × (y.state
            ≡ (if reachable t then tunnel_state_active else tunnel_state_error))
          × Stands s₀ (serve_reports (health_round reachable (before ++ (t ∷ after))) s) y
    unfolding serve_reports health_round
    round_before [] after t s₀ s x named others h =
        let m = check_tunnel_health (reachable t) t in
        let (same, status) = check_tunnel_health_lem t in
        (
          record x { state = m.status },
          status,
          round_others after s₀ _ _ others (report_here s₀ s x m (same ∙ named) h),
        )
    round_before (u ∷ before) after t s₀ s x named others h =
        let m = check_tunnel_health (reachable u) u in
        elim (nat_eq.dec m.port port) [
          | yes same ↦ round_before before after t s₀ _ _ named others (report_here s₀ s x m same h)
          | no other ↦
              round_before before after t s₀ _ x named others (report_other s₀ s x m other h)
        ]

-- In a valid session with a tunnel on the port that the configuration of a tunnel names: after a round
-- of health checks, whose reports arrive in any order, with no report on that port after that of this
-- tunnel, its state is active if its local end was reached and error if not; the ports and the
-- listeners are as before.
pub round_served :
    (cfg : ServerConfig) (s : Session) (reachable : TunnelConfig → Bool)
    (before after : List TunnelConfig) (t : TunnelConfig) (a : ℕ)
    → IsValid cfg s
    → lookup t.remote_port s.tunnels ≡ some a
    → All (λ u. u.remote_port ≢ t.remote_port) after
    → (y : TunnelInfo) × (lookup a
          (serve_reports (health_round reachable (before ++ (t ∷ after))) s).heap
        ≡ some y)
      × (y.remote_port ≡ t.remote_port)
      × (y.state ≡ (if reachable t then tunnel_state_active else tunnel_state_error))
      × ((serve_reports (health_round reachable (before ++ (t ∷ after))) s).tunnels ≡ s.tunnels)
      × ((serve_reports (health_round reachable (before ++ (t ∷ after))) s).listening ≡ s.listening)
round_served cfg s reachable before after t a v bound others =
    let (x, held, own) = v.linked t.remote_port a bound in
    let (y, state, h) =
      round_before cfg t.remote_port a reachable before after t s s x refl others (record {
        valid = v;
        bound = bound;
        stands = held;
        own = own;
        tunnels = refl;
        listening = refl;
      }) in
    (y, h.stands, h.own, state, h.tunnels, h.listening)
