-- ===== src/Server/Connections/Steps.antt =====
-- The steps of the connections of a session, each on one tunnel.
use tbore.Base.{
  ℕ, suc, ◌+◌, ◌<◌, ◌≡◌, refl, sym, ap, subst, ◌∙◌, inl, inr, ◌⊎◌, nat_eq, Bool, ◌∷◌, none, some,
  arith, Option-cases,
}
use mathlib.Core.Option.{some-injective}
use tbore.Base.Int.{ℤ, pos, ◌≤ℤ◌, increment32}
use tbore.Base.GoMap.{lookup, insert, lookup-insert}
use tbore.Config.{ServerConfig}
use tbore.Server.Session.{TunnelInfo, update_tunnel, tunnel_state_active, close}
use tbore.Server.Session.Invariant.{write_tunnel-IsValid}
use tbore.Server.Connections.{
  Semaphore, IsSemaphore, Traffic, accept_connection, start_connection, end_connection,
  leave_tunnel,
}
use tbore.Server.Connections.Counts.{
  count, count-close, waiting, Tally, IsCounted, Touches-IsCounted,
}

abbrev pub busy_tunnel : ℤ → TunnelInfo → TunnelInfo
busy_tunnel seen x = record x { state = tunnel_state_active; active_conns = increment32 seen }

module _ {W : Semaphore} (laws : IsSemaphore W) (cfg : ServerConfig) (t : Traffic W)
    (c : IsCounted laws cfg t) where
  -- The tunnel on a port.
  record Bound (p a : ℕ) (x : TunnelInfo) : Type 0 where
    stands : lookup a t.session.heap ≡ some x
    own : x.remote_port ≡ p
    tally : Tally laws cfg.max_conns_per_tunnel t a x
    waits : waiting t a x ≡ count p t.accepted

  bound_lem : (p a : ℕ) → lookup p t.session.tunnels ≡ some a → (x : TunnelInfo) × Bound p a x
  bound_lem p a bound =
      let (x, stands, own) = c.valid.linked p a bound in
      (
        x,
        record {
          stands = stands;
          own = own;
          tally = c.tally a x stands;
          waits = rw own (ground (arith, bound));
        },
      )

  pub held_lem :
      (p a : ℕ)
      → lookup p t.session.tunnels ≡ some a
      → (sem : W.Sem) × (lookup a t.sems ≡ some sem)
        × (laws.held sem ≡ count p t.accepted + count a t.serving)
        × (pos (laws.held sem) ≤ℤ cfg.max_conns_per_tunnel)
  held_lem p a bound =
      let (x, here) = bound_lem p a bound in
      let y = here.tally in
      (y.sem, y.guarded, y.held ∙ ap (λ n. n + count a t.serving) here.waits, y.within)

  -- A connection is admitted exactly if the semaphore has room, and leaves no trace otherwise.
  accept_connection_cases :
      (p a : ℕ) (seen : ℤ) (x : TunnelInfo) (sem : W.Sem)
      → lookup p t.session.tunnels ≡ some a
      → lookup a t.session.heap ≡ some x
      → lookup a t.sems ≡ some sem
      → (accept_connection p seen t ≡ t)
        ⊎ ((sem' : W.Sem) × (W.try_acquire sem ≡ some sem')
            × (accept_connection p seen t ≡ record t {
              session = record t.session { heap = insert a (busy_tunnel seen x) t.session.heap };
              sems = insert a sem' t.sems;
              accepted = p ∷ t.accepted;
            }))
  unfolding accept_connection update_tunnel
  accept_connection_cases p a seen x sem bound stands guarded =
      elim (Option-cases (W.try_acquire sem)) [
        | inl full ↦ inl (ground (arith, bound, full, guarded))
        | inr (sem', room) ↦ inr (sem', room, ground (arith, bound, room, guarded, stands))
      ]

  accept_connection_closed :
      (p : ℕ) (seen : ℤ) → lookup p t.session.tunnels ≡ none → accept_connection p seen t ≡ t
  unfolding accept_connection
  accept_connection_closed p seen missing = ground (arith, missing)

  pub accept_connection-IsCounted :
      (p : ℕ) (seen : ℤ) → IsCounted laws cfg (accept_connection p seen t)
  accept_connection-IsCounted p seen = elim (Option-cases (lookup p t.session.tunnels)) [
    | inl missing ↦ rw (accept_connection_closed p seen missing) c
    | inr (a, bound) ↦
        let (x, here) = bound_lem p a bound in
        let y = here.tally in
        elim (accept_connection_cases p a seen x y.sem bound here.stands y.guarded) [
          | inl refused ↦ rw refused c
          | inr (sem', room, admitted) ↦
              let (more, same, within) = laws.try_acquire y.sem sem' room in
              let fits : pos (suc (laws.held y.sem)) ≤ℤ cfg.max_conns_per_tunnel =
                rw y.size at within in
              rw admitted (
                Touches-IsCounted laws cfg t _ a sem' (busy_tunnel seen x) c
                  (record {
                    tunnels = refl;
                    sems = λ b. lookup-insert b a sem' t.sems;
                    heap = λ b. lookup-insert b a (busy_tunnel seen x) t.session.heap;
                    accepted = λ q other. unfold count in ground (arith, bound, other);
                    serving = λ b other. refl;
                  })
                  (write_tunnel-IsValid cfg t.session c.valid a x (busy_tunnel seen x) here.stands
                    refl)
                  (unfold count in ground (arith, more, y.held, here.waits, here.own, bound))
                  (same ∙ y.size) (rw more fits))
        ]
  ]

  start_connection_lem :
      (p a : ℕ)
      → lookup p t.session.tunnels ≡ some a
      → start_connection p t ≡ record t { accepted = close p t.accepted; serving = a ∷ t.serving }
  unfolding start_connection
  start_connection_lem p a bound = ground (arith, bound)

  pub start_connection-IsCounted :
      (p : ℕ) → 0 < count p t.accepted → IsCounted laws cfg (start_connection p t)
  start_connection-IsCounted p left = elim (Option-cases (lookup p t.session.tunnels)) [
    | inl missing ↦ absurd (ground (arith, missing, c.placed p left))
    | inr (a, bound) ↦
        let (x, here) = bound_lem p a bound in
        let y = here.tally in
        rw (start_connection_lem p a bound) (
          Touches-IsCounted laws cfg t _ a y.sem x c
            (record {
              tunnels = refl;
              sems = λ b. ground (arith, y.guarded);
              heap = λ b. ground (arith, here.stands);
              accepted = λ q other. ground (arith, count-close q p t.accepted, bound, other);
              serving = λ b other. unfold count in ground arith;
            })
            c.valid
            (unfold count in
              ground (arith, count-close p p t.accepted, y.held, left, here.waits, here.own, bound))
            y.size y.within)
  ]

  -- The end of a connection that is served releases what it holds, and does not panic.
  pub end_connection_lem :
      (failed : Bool) (seen : ℤ) (a : ℕ) (x : TunnelInfo)
      → lookup a t.session.heap ≡ some x
      → (y : Tally laws cfg.max_conns_per_tunnel t a x) → 0 < count a t.serving
      → (sem' : W.Sem) × (suc (laws.held sem') ≡ laws.held y.sem)
        × (laws.size sem' ≡ laws.size y.sem)
        × (end_connection failed seen a t
            ≡ some (record t {
              session = record t.session {
                heap = insert a (leave_tunnel failed seen x) t.session.heap;
              };
              sems = insert a sem' t.sems;
              serving = close a t.serving;
            }))
  unfolding end_connection
  end_connection_lem failed seen a x stands y left =
      let (sem', freed, fewer, same) = laws.release y.sem (omega (arith, y.held, left)) in
      (sem', fewer, same, ground (arith, y.guarded, stands, freed))

  pub end_connection-IsCounted :
      (failed : Bool) (seen : ℤ) (a : ℕ) (t' : Traffic W)
      → 0 < count a t.serving
      → end_connection failed seen a t ≡ some t'
      → IsCounted laws cfg t'
  unfolding leave_tunnel
  end_connection-IsCounted failed seen a t' left ended =
      let (x, stands) = c.served a left in
      let y = c.tally a x stands in
      let (sem', fewer, same, result) = end_connection_lem failed seen a x stands y left in
      let x' = leave_tunnel failed seen x in
      subst (IsCounted laws cfg) (some-injective _ t' (sym result ∙ ended)) (
        Touches-IsCounted laws cfg t _ a sem' x' c
          (record {
            tunnels = refl;
            sems = λ b. lookup-insert b a sem' t.sems;
            heap = λ b. lookup-insert b a x' t.session.heap;
            accepted = λ q other. refl;
            serving = λ b other. ground (arith, count-close b a t.serving);
          })
          (write_tunnel-IsValid cfg t.session c.valid a x x' stands refl)
          (ground (arith, count-close a a t.serving, fewer, y.held, left)) (same ∙ y.size)
          (omega (arith, fewer, y.within)))

  -- A write to the tunnel on a port, by a request that leaves its port alone.
  pub update_tunnel-IsCounted :
      (p : ℕ) (f : TunnelInfo → TunnelInfo)
      → ((x : TunnelInfo) → (f x).remote_port ≡ x.remote_port)
      → IsCounted laws cfg (record t { session = update_tunnel p f t.session })
  unfolding update_tunnel
  update_tunnel-IsCounted p f port = elim (Option-cases (lookup p t.session.tunnels)) [
    | inl missing ↦ rw (missing, update_tunnel) c
    | inr (a, bound) ↦
        let (x, here) = bound_lem p a bound in
        let y = here.tally in
        rw (bound, update_tunnel, here.stands)
          (Touches-IsCounted laws cfg t _ a y.sem (f x) c
            (record {
              tunnels = refl;
              sems = λ b. ground (arith, y.guarded);
              heap = λ b. lookup-insert b a (f x) t.session.heap;
              accepted = λ q other. refl;
              serving = λ b other. refl;
            })
            (write_tunnel-IsValid cfg t.session c.valid a x (f x) here.stands (port x))
            (rw (port x) y.held) y.size y.within)
  ]
