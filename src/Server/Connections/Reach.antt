-- ===== src/Server/Connections/Reach.antt =====
-- All runs of a session and its connections, in which a tunnel is cancelled only while none of its
-- connections is between its acceptance and the goroutine's look at the map of tunnels.
use tbore.Base.{
  ℕ, ◌+◌, ◌<◌, ◌≡◌, refl, inl, inr, ◌⊎◌, nat_eq, String, Bool, [], Option, none, some, arith,
}
use native.Mathlib.Decide.{dec_lt}
use tbore.Base.Int.{ℤ, pos, ◌≤ℤ◌}
use tbore.Base.GoMap.{lookup}
use tbore.Config.{ServerConfig}
use tbore.Server.Session.{
  ForwardMsg, TunnelMsg, HealthMsg, ClientInfo, new_session, handle_client_info_request,
  handle_tunnel_info_request, handle_health_report_request,
}
use tbore.Server.Session.Invariant.{IsListen}
use tbore.Server.Session.Lifetime.{new_session-IsValid}
use tbore.Server.Connections.{
  Semaphore, IsSemaphore, Traffic, accept_connection, start_connection, end_connection, forward,
  cancel,
}
use tbore.Server.Connections.Counts.{count, IsCounted}
use tbore.Server.Connections.Steps.{
  accept_connection-IsCounted, start_connection-IsCounted, end_connection-IsCounted,
  end_connection_lem, update_tunnel-IsCounted, held_lem,
}
use tbore.Server.Connections.Grants.{forward-IsCounted, cancel-IsCounted}

module _ {W : Semaphore} (cfg : ServerConfig) (format_addr : String → ℤ → String) where
  -- What the loops of one session do next. A goroutine takes a step if it is there to take it. What
  -- `net.Listen` answers is free to change.
  pub data Step : Traffic W → Traffic W → Type 0 where
    accepts : (p : ℕ) (seen : ℤ) (t : Traffic W) → Step t (accept_connection p seen t)
    starts : (p : ℕ) (t : Traffic W) → 0 < count p t.accepted → Step t (start_connection p t)
    ends :
        (failed : Bool) (seen : ℤ) (a : ℕ) (t t' : Traffic W)
        → 0 < count a t.serving
        → end_connection failed seen a t ≡ some t'
        → Step t t'
    forwards :
        (listen : ℕ → Option ℕ) (msg : ForwardMsg) (t : Traffic W)
        → IsListen listen t.session
        → Step t (forward cfg listen msg t)
    cancels :
        (msg : ForwardMsg) (t : Traffic W) → count msg.port t.accepted ≡ 0 → Step t (cancel msg t)
    tells :
        (info : Option ClientInfo) (t : Traffic W)
        → Step t (record t { session = (handle_client_info_request info t.session).0 })
    names :
        (info : Option TunnelMsg) (t : Traffic W)
        → Step t (record t { session = (handle_tunnel_info_request format_addr info t.session).0 })
    reports :
        (info : Option HealthMsg) (t : Traffic W)
        → Step t (record t { session = (handle_health_report_request info t.session).0 })

  pub data Reach (id remote_addr : String) (now : ℕ) : Traffic W → Type 0 where
    fresh : Reach id remote_addr now (record {
      session = new_session id remote_addr now;
      sems = [];
      accepted = [];
      serving = [];
    })
    later :
        {t t' : Traffic W} → Reach id remote_addr now t → Step t t' → Reach id remote_addr now t'

module _ {W : Semaphore} (laws : IsSemaphore W) (cfg : ServerConfig)
    (format_addr : String → ℤ → String) (room : pos 0 ≤ℤ cfg.max_conns_per_tunnel) where
  Step-IsCounted :
      {t t' : Traffic W} → Step cfg format_addr t t' → IsCounted laws cfg t → IsCounted laws cfg t'
  unfolding handle_client_info_request handle_tunnel_info_request handle_health_report_request
  Step-IsCounted (accepts p seen t) c = accept_connection-IsCounted laws cfg t c p seen
  Step-IsCounted (starts p t left) c = start_connection-IsCounted laws cfg t c p left
  Step-IsCounted (ends failed seen a t t' left ended) c =
      end_connection-IsCounted laws cfg t c failed seen a t' left ended
  Step-IsCounted (forwards listen msg t l) c = forward-IsCounted laws cfg t c room listen msg l
  Step-IsCounted (cancels msg t none_left) c = cancel-IsCounted laws cfg t c msg none_left
  Step-IsCounted (tells none t) c = c
  Step-IsCounted (tells (some info) t) c = record {
    valid = record {
      unique = c.valid.unique;
      limited = c.valid.limited;
      fresh = c.valid.fresh;
      linked = c.valid.linked;
      bound = c.valid.bound;
      distinct = c.valid.distinct;
    };
    tally = λ a x h.
        let y = c.tally a x h in
        record {
          sem = y.sem;
          guarded = y.guarded;
          held = y.held;
          size = y.size;
          within = y.within;
        };
    placed = c.placed;
    served = c.served;
  }
  Step-IsCounted (names none t) c = c
  Step-IsCounted (names (some info) t) c =
      update_tunnel-IsCounted laws cfg t c info.port _ (λ x. refl)
  Step-IsCounted (reports none t) c = c
  Step-IsCounted (reports (some info) t) c =
      update_tunnel-IsCounted laws cfg t c info.port _ (λ x. refl)

  Reach-IsCounted :
      {id remote_addr : String} {now : ℕ} {t : Traffic W}
      → pos 0 ≤ℤ cfg.max_tunnels
      → Reach cfg format_addr id remote_addr now t
      → IsCounted laws cfg t
  Reach-IsCounted {id} {remote_addr} {now} some_tunnels fresh = record {
    valid = new_session-IsValid cfg id remote_addr now some_tunnels;
    tally = λ a x h. absurd (unfold new_session lookup in ground (arith, h));
    placed = λ p left. absurd (unfold count in omega (arith, left));
    served = λ a left. absurd (unfold count in omega (arith, left));
  }
  Reach-IsCounted some_tunnels (later r step) = Step-IsCounted step (Reach-IsCounted some_tunnels r)

  -- With limits on the tunnels and on the connections of a tunnel that are not negative: however the
  -- connections of a session, their goroutines and its requests interleave, and whatever the goroutines
  -- that change a tunnel's counter without a lock have read of it, where a tunnel is cancelled only while
  -- no accepted connection of its port has yet to read the map of tunnels: the semaphore of a tunnel on
  -- a port is held exactly once for each goroutine of its connections, which are within the limit; and
  -- no connection that is served panics at its end, also where its tunnel was cancelled.
  pub connections_counted :
      (id remote_addr : String) (now : ℕ) (t : Traffic W) (p a : ℕ)
      → pos 0 ≤ℤ cfg.max_tunnels
      → Reach cfg format_addr id remote_addr now t
      → lookup p t.session.tunnels ≡ some a
      → ((sem : W.Sem) × (lookup a t.sems ≡ some sem)
          × (laws.held sem ≡ count p t.accepted + count a t.serving)
          × (pos (laws.held sem) ≤ℤ cfg.max_conns_per_tunnel))
        × ((failed : Bool) (seen : ℤ) (b : ℕ)
            → (count b t.serving ≡ 0)
              ⊎ ((t' : Traffic W) × (end_connection failed seen b t ≡ some t')))
  connections_counted id remote_addr now t p a some_tunnels r bound =
      let c = Reach-IsCounted some_tunnels r in
      (
        held_lem laws cfg t c p a bound,
        λ failed seen b. elim (dec_lt 0 (count b t.serving)) [
          | no none_left ↦ inl (omega (arith, none_left))
          | yes left ↦
              let (y, there) = c.served b left in
              let (_, _, _, ended) =
                end_connection_lem laws cfg t c failed seen b y there (c.tally b y there) left in
              inr (_, ended)
        ],
      )
