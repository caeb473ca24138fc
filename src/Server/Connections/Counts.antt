-- ===== src/Server/Connections/Counts.antt =====
-- What the semaphore of a tunnel and the goroutines of its connections have in common.
use tbore.Base.{
  ℕ, suc, ◌+◌, ◌-◌, ◌<◌, ◌≡◌, ◌≢◌, sym, subst, ◌∙◌, ◌==◌, nat_eq, if◌then◌else◌, true, List, [],
  ◌∷◌, none, some, arith, Option-cases, inl, inr,
}
use mathlib.Core.Option.{some-injective, none-ne-some}
use tbore.Base.Int.{ℤ, pos, ◌≤ℤ◌}
use tbore.Base.GoMap.{lookup}
use tbore.Config.{ServerConfig}
use tbore.Server.Session.{TunnelInfo, close}
use tbore.Server.Session.Invariant.{IsValid, is_some}
use tbore.Server.Connections.{Semaphore, IsSemaphore, Traffic}

unfoldable pub count : ℕ → List ℕ → ℕ
count a [] = 0
count a (b ∷ l) = if a == b then suc (count a l) else count a l

pub count-close :
    (a b : ℕ) (l : List ℕ) → count a (close b l) ≡ (if a == b then count a l - 1 else count a l)
unfolding count close
count-close a b [] = ground arith
count-close a b (c ∷ l) = ground (arith, count-close a b l)

-- The goroutines that will read this tunnel on its port, if it still stands there.
abbrev pub waiting : {W : Semaphore} → Traffic W → ℕ → TunnelInfo → ℕ
waiting t a x = elim (lookup x.remote_port t.session.tunnels) [
  | none ↦ 0
  | some b ↦ if b == a then count x.remote_port t.accepted else 0
]

module _ {W : Semaphore} (laws : IsSemaphore W) where
  -- The tunnel `x` at the address `a`: its semaphore is held once for every goroutine that will
  -- release it.
  pub record Tally (limit : ℤ) (t : Traffic W) (a : ℕ) (x : TunnelInfo) : Type 0 where
    pub sem : W.Sem
    pub guarded : lookup a t.sems ≡ some sem
    pub held : laws.held sem ≡ waiting t a x + count a t.serving
    pub size : laws.size sem ≡ limit
    pub within : pos (laws.held sem) ≤ℤ limit

  pub record IsCounted (cfg : ServerConfig) (t : Traffic W) : Type 0 where
    pub valid : IsValid cfg t.session
    pub tally :
        (a : ℕ) (x : TunnelInfo)
        → lookup a t.session.heap ≡ some x
        → Tally cfg.max_conns_per_tunnel t a x
    pub placed : (p : ℕ) → 0 < count p t.accepted → is_some (lookup p t.session.tunnels) ≡ true
    pub served :
        (a : ℕ) → 0 < count a t.serving → (x : TunnelInfo) × (lookup a t.session.heap ≡ some x)

-- A step that touches one tunnel only, and the goroutines of that tunnel.
pub record Touches {W : Semaphore} (t t' : Traffic W) (a : ℕ) (sem : W.Sem) (info : TunnelInfo)
    : Type 0 where
  pub tunnels : t'.session.tunnels ≡ t.session.tunnels
  pub sems : (b : ℕ) → lookup b t'.sems ≡ (if b == a then some sem else lookup b t.sems)
  pub heap :
      (b : ℕ) → lookup b t'.session.heap ≡ (if b == a then some info else lookup b t.session.heap)
  pub accepted :
      (q : ℕ) → lookup q t.session.tunnels ≢ some a → count q t'.accepted ≡ count q t.accepted
  pub serving : (b : ℕ) → b ≢ a → count b t'.serving ≡ count b t.serving

module _ {W : Semaphore} (laws : IsSemaphore W) (cfg : ServerConfig) (t t' : Traffic W) (a : ℕ)
    (sem : W.Sem) (info : TunnelInfo) (c : IsCounted laws cfg t)
    (step : Touches t t' a sem info) where
  waiting_elsewhere : (b : ℕ) (y : TunnelInfo) → b ≢ a → waiting t' b y ≡ waiting t b y
  waiting_elsewhere b y other = elim (Option-cases (lookup y.remote_port t.session.tunnels)) [
    | inl gone ↦ ground (arith, step.tunnels, gone)
    | inr (d, there) ↦ elim (nat_eq.dec d a) [
      | yes here ↦ ground (arith, step.tunnels, there, here, other)
      | no apart ↦ ground (
        arith,
        step.tunnels,
        there,
        step.accepted y.remote_port (λ e. apart (some-injective d a (sym there ∙ e))),
      )
    ]
  ]

  Touches-elsewhere :
      (b : ℕ) (y : TunnelInfo)
      → lookup b t.session.heap ≡ some y
      → b ≢ a
      → Tally laws cfg.max_conns_per_tunnel t' b y
  Touches-elsewhere b y h other =
      let u = c.tally b y h in
      record {
        sem = u.sem;
        guarded = ground (arith, step.sems b, u.guarded);
        held = omega (arith, u.held, waiting_elsewhere b y other, step.serving b other);
        size = u.size;
        within = u.within;
      }

  pub Touches-IsCounted :
      IsValid cfg t'.session
      → laws.held sem ≡ waiting t' a info + count a t'.serving
      → laws.size sem ≡ cfg.max_conns_per_tunnel
      → pos (laws.held sem) ≤ℤ cfg.max_conns_per_tunnel
      → IsCounted laws cfg t'
  Touches-IsCounted valid held size within = record {
    valid = valid;
    tally = λ b y h'. elim (nat_eq.dec b a) [
      | yes same ↦
          let it : info ≡ y = some-injective info y (ground (arith, step.heap b)) in
          subst (λ k. Tally laws cfg.max_conns_per_tunnel t' k y) (sym same)
            (subst (Tally laws cfg.max_conns_per_tunnel t' a) it (record {
              sem = sem;
              guarded = ground (arith, step.sems a);
              held = held;
              size = size;
              within = within;
            }))
      | no other ↦ Touches-elsewhere b y (ground (arith, step.heap b)) other
    ];
    placed = λ q left. rw step.tunnels (elim (Option-cases (lookup q t.session.tunnels)) [
      | inr (d, there) ↦ ground (arith, there)
      | inl gone ↦
          c.placed q (omega (arith, left, step.accepted q (λ e. none-ne-some a (sym gone ∙ e))))
    ]);
    served = λ b left. elim (nat_eq.dec b a) [
      | yes same ↦ (info, ground (arith, step.heap b))
      | no other ↦
          let (y, h) = c.served b (omega (arith, left, step.serving b other)) in
          (y, ground (arith, step.heap b))
    ];
  }
