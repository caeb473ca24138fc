-- ===== src/Server/Connections/Grants.antt =====
-- The forward and the cancel requests of a session among its connections.
use tbore.Base.{
  ℕ, ◌≡◌, ◌≢◌, sym, ◌∙◌, Option-cases, inl, inr, nat_eq, Option, none, some, arith, subst,
}
use native.Mathlib.Decide.{dec_lt}
use mathlib.Core.Option.{some-injective, none-ne-some}
use tbore.Base.Int.{pos, ◌≤ℤ◌}
use tbore.Base.GoMap.{lookup, insert, lookup-insert, lookup-delete}
use tbore.Config.{ServerConfig}
use tbore.Server.Session.{
  TunnelInfo, ForwardMsg, add_tunnel, new_tunnel, handle_cancel_forward_request,
}
use tbore.Server.Session.Invariant.{
  IsValid, IsListen, handle_cancel_forward_request-IsValid, handle_forward_request_cases,
  add_tunnel-IsValid,
}
use tbore.Server.Connections.{Semaphore, IsSemaphore, Traffic, forward, cancel}
use tbore.Server.Connections.Counts.{count, waiting, Tally, IsCounted}

module _ {W : Semaphore} (laws : IsSemaphore W) (cfg : ServerConfig) (t : Traffic W)
    (c : IsCounted laws cfg t) where
  -- No goroutine waits on a port, or serves an address, that has no tunnel.
  unplaced : (p : ℕ) → lookup p t.session.tunnels ≡ none → count p t.accepted ≡ 0
  unplaced p absent = elim (dec_lt 0 (count p t.accepted)) [
    | yes left ↦ absurd (ground (arith, absent, c.placed p left))
    | no none_left ↦ omega (arith, none_left)
  ]

  unserved : (a : ℕ) → lookup a t.session.heap ≡ none → count a t.serving ≡ 0
  unserved a absent = elim (dec_lt 0 (count a t.serving)) [
    | yes left ↦ let (x, stands) = c.served a left in absurd (none-ne-some x (sym absent ∙ stands))
    | no none_left ↦ omega (arith, none_left)
  ]

  module _ (room : pos 0 ≤ℤ cfg.max_conns_per_tunnel) (msg : ForwardMsg) (p : ℕ)
      (absent : lookup p t.session.tunnels ≡ none) where
    abbrev granted : Traffic W
    granted = record t {
      session = add_tunnel cfg msg p t.session;
      sems = insert t.session.next (W.new_weighted cfg.max_conns_per_tunnel) t.sems;
    }

    granted-here : Tally laws cfg.max_conns_per_tunnel granted t.session.next (new_tunnel cfg msg p)
    unfolding add_tunnel new_tunnel
    granted-here =
        let a = t.session.next in
        let sem = W.new_weighted cfg.max_conns_per_tunnel in
        let (empty, size) = laws.new_weighted cfg.max_conns_per_tunnel in
        let none_served = unserved a (c.valid.fresh a (omega arith)) in
        record {
          sem = sem;
          guarded = ground (arith, lookup-insert a a sem t.sems);
          held =
              ground (
                arith,
                lookup-insert p p a t.session.tunnels,
                empty,
                unplaced p absent,
                none_served,
              );
          size = size;
          within = rw empty room;
        }

    granted-elsewhere :
        (b : ℕ) (y : TunnelInfo)
        → lookup b t.session.heap ≡ some y
        → Tally laws cfg.max_conns_per_tunnel granted b y
    unfolding add_tunnel
    granted-elsewhere b y h =
        let u = c.tally b y h in
        let a = t.session.next in
        let apart : b ≢ a = λ e. none-ne-some y (sym (c.valid.fresh b (omega (arith, e))) ∙ h) in
        let waits : waiting granted b y ≡ waiting t b y =
          ground (arith, lookup-insert y.remote_port p a t.session.tunnels, apart, absent) in
        record {
          sem = u.sem;
          guarded = ground (
            arith,
            lookup-insert b a (W.new_weighted cfg.max_conns_per_tunnel) t.sems,
            u.guarded,
            apart,
          );
          held = omega (arith, u.held, waits);
          size = u.size;
          within = u.within;
        }

    granted-IsCounted : IsValid cfg granted.session → IsCounted laws cfg granted
    unfolding add_tunnel
    granted-IsCounted valid =
        let a = t.session.next in
        let x = new_tunnel cfg msg p in
        record {
          valid = valid;
          tally = λ b y h. elim (nat_eq.dec b a) [
            | yes same ↦
                let it : x ≡ y =
                  some-injective x y (ground (arith, lookup-insert b a x t.session.heap)) in
                subst (λ k. Tally laws cfg.max_conns_per_tunnel granted k y) (sym same)
                  (subst (Tally laws cfg.max_conns_per_tunnel granted a) it granted-here)
            | no other ↦ granted-elsewhere b y (ground (arith, lookup-insert b a x t.session.heap))
          ];
          placed = λ q left. ground (arith, lookup-insert q p a t.session.tunnels, c.placed q left);
          served = λ b left.
              let (y, h) = c.served b left in
              elim (nat_eq.dec b a) [
                | yes same ↦ (x, ground (arith, lookup-insert b a x t.session.heap))
                | no other ↦ (y, ground (arith, lookup-insert b a x t.session.heap))
              ];
        }

  pub forward-IsCounted :
      pos 0 ≤ℤ cfg.max_conns_per_tunnel
      → (listen : ℕ → Option ℕ) (msg : ForwardMsg) → IsListen listen t.session
      → IsCounted laws cfg (forward cfg listen msg t)
  unfolding forward
  forward-IsCounted room listen msg l =
      elim (handle_forward_request_cases cfg listen msg t.session) [
        | inl refused ↦ rw refused c
        | inr (p, bound, _, more, admitted) ↦
            let free = l.free msg.port p bound in
            rw admitted (
              granted-IsCounted room msg p (ground (arith, c.valid.bound p, free))
                (add_tunnel-IsValid cfg t.session c.valid msg p free more))
      ]

  -- A cancelled tunnel keeps its semaphore for the connections that it still has.
  pub cancel-IsCounted :
      (msg : ForwardMsg) → count msg.port t.accepted ≡ 0 → IsCounted laws cfg (cancel msg t)
  unfolding cancel handle_cancel_forward_request
  cancel-IsCounted msg none_left =
      let valid = handle_cancel_forward_request-IsValid cfg t.session c.valid msg in
      elim (Option-cases (lookup msg.port t.session.tunnels)) [
        | inl missing ↦ rw (missing, cancel, handle_cancel_forward_request) c
        | inr (a, found) ↦
            rw (found, cancel, handle_cancel_forward_request)
              (record {
                valid = rw (found, handle_cancel_forward_request) at valid;
                tally = λ b y h.
                    let u = c.tally b y h in
                    record {
                      sem = u.sem;
                      guarded = u.guarded;
                      held = ground (
                        arith,
                        u.held,
                        none_left,
                        lookup-delete y.remote_port msg.port t.session.tunnels,
                      );
                      size = u.size;
                      within = u.within;
                    };
                placed = λ q left.
                    ground (
                      arith,
                      lookup-delete q msg.port t.session.tunnels,
                      c.placed q left,
                      none_left,
                    );
                served = c.served;
              })
      ]
