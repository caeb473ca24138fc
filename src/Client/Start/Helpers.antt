-- ===== src/Client/Start/Helpers.antt =====
-- The goroutines beside a connection end with it.
use tbore.Base.{
  ℕ, zero, suc, ◌≤◌, ◌≡◌, refl, subst, length, get_elem?, remove_at, map, sum_by, sum_by-append,
  leb, if◌then◌else◌, Bool, true, false, List, [], ◌∷◌, Option, arith, Option-cases, Bool-cases,
  inl, inr, ◌⊎◌,
}
use tbore.Config.{TunnelConfig}
use tbore.Auth.Authenticator.{Crypto, Authenticator}
use tbore.Client.Reloads.{Running}
use tbore.Client.Start.{
  Phase, dialling, up, sleeping, Helper, Kind, keep_alive, health_check, reloads, Starting, start,
  Answer, new_helpers, dial, lose, cancel, send_keep_alive, health_check_loop, take_turn, Event,
  passes, dials, wakes, loses, server_closes, signals, keeps, checks, turns, sees_end, is_let_in,
  is_kind, at_helper, end_helper, step, run, wake, when_dialling, when_up,
}

-- The goroutines of a kind whose context is not cancelled.
abbrev pub working : Kind → List Helper → ℕ
working kind = sum_by (λ h. if h.cancelled then 0 else if is_kind kind h.kind then 1 else 0)

-- How many there may be.
abbrev pub most : Phase → ℕ
most dialling = 0
most up = 1
most (sleeping until) = 0

abbrev pub is_up : Phase → Bool
is_up dialling = false
is_up up = true
is_up (sleeping until) = false

working-new_helpers : (k : Kind) → working k new_helpers ≡ 1
working-new_helpers keep_alive = refl
working-new_helpers health_check = refl
working-new_helpers reloads = refl

module _ (k : Kind) where
  working-remove_at : (n : ℕ) (l : List Helper) → working k (remove_at n l) ≤ working k l
  working-remove_at n [] = omega arith
  working-remove_at zero (h ∷ l) = omega arith
  working-remove_at (suc n) (h ∷ l) = omega (arith, working-remove_at n l)

  working-cancel : (l : List Helper) → working k (map cancel l) ≡ 0
  working-cancel [] = refl
  working-cancel (h ∷ l) = omega (arith, working-cancel l)

  abbrev IsTidyIn : Phase → Starting → Type 0
  IsTidyIn p s = working k s.helpers ≤ most p

  abbrev IsTidy : Starting → Type 0
  IsTidy s = IsTidyIn s.phase s

  -- The phase stays, and no goroutine comes to work.
  abbrev IsFewer : Starting → Starting → Type 0
  IsFewer s s' = (s'.phase ≡ s.phase) × (working k s'.helpers ≤ working k s.helpers)

  fewer-IsTidy : (s s' : Starting) → IsFewer s s' → IsTidy s → IsTidy s'
  fewer-IsTidy s s' (same, less) h = rw same (omega (arith, less, h))

  at_helper-IsTidy :
      (kind : Kind) (n : ℕ) (act : Helper → Starting → Starting) (s : Starting)
      → ((h : Helper) → IsFewer s (act h s))
      → IsTidy s
      → IsTidy (at_helper kind n act s)
  at_helper-IsTidy kind n act s fewer c = elim (Option-cases (get_elem? s.helpers n)) [
    | inl missing ↦ rw (missing, at_helper) c
    | inr (h, there) ↦ elim (Bool-cases (is_kind kind h.kind)) [
      | inl right ↦ rw (there, right, at_helper) (fewer-IsTidy s (act h s) (fewer h) c)
      | inr wrong ↦ rw (there, wrong, at_helper) c
    ]
  ]

  end_helper-IsTidy : (n : ℕ) (s : Starting) → IsTidy s → IsTidy (end_helper n s)
  end_helper-IsTidy n s c = elim (Option-cases (get_elem? s.helpers n)) [
    | inl missing ↦ rw (missing, end_helper) c
    | inr (h, there) ↦ elim (Bool-cases h.cancelled) [
      | inl over ↦ rw (there, over, end_helper) (omega (arith, c, working-remove_at n s.helpers))
      | inr goes ↦ rw (there, goes, end_helper) c
    ]
  ]

  wake_at : (p : Phase) (s : Starting) → s.phase ≡ p → IsTidy s → IsTidy (wake p s)
  wake_at dialling s e c = c
  wake_at up s e c = c
  wake_at (sleeping until) s e c = elim (Bool-cases (leb until s.now)) [
    | inl due ↦ rw (due, wake) (subst (λ q. IsTidyIn q s) e c)
    | inr early ↦ rw (early, wake) c
  ]

  lose_at : (p : Phase) (s : Starting) → s.phase ≡ p → IsTidy s → IsTidy (when_up p lose s)
  unfolding lose
  lose_at dialling s e c = c
  lose_at up s e c = omega (arith, working-cancel s.helpers)
  lose_at (sleeping until) s e c = c

  if-IsTidy : (b : Bool) (s s' : Starting) → IsTidy s → IsTidy s' → IsTidy (if b then s else s')
  if-IsTidy true s s' c c' = c
  if-IsTidy false s s' c c' = c'

  module _ (crypto : Crypto) (auth : Authenticator) where
    dial-IsTidy :
        (random : List ℕ) (a : Answer) (listen : TunnelConfig → Option ℕ) (s : Starting)
        → working k s.helpers ≤ 0
        → IsTidy (dial crypto auth random a listen s)
    unfolding dial
    dial-IsTidy random a listen s h = elim (Bool-cases (is_let_in s.client.client.cfg a)) [
      | inr refused ↦ rw (refused, dial) h
      | inl let_in ↦ elim (Bool-cases a.takes_info) [
        | inl told ↦
            rw (let_in, told, dial)
              (omega (
                arith,
                h,
                working-new_helpers k,
                sum_by-append (λ x. if x.cancelled then 0 else if is_kind k x.kind then 1 else 0)
                    s.helpers new_helpers,
              ))
        | inr untold ↦ rw (let_in, untold, dial) h
      ]
    ]

    dial_at :
        (random : List ℕ) (a : Answer) (listen : TunnelConfig → Option ℕ) (p : Phase) (s : Starting)
        → s.phase ≡ p
        → IsTidy s
        → IsTidy (when_dialling p (dial crypto auth random a listen) s)
    dial_at random a listen dialling s e c =
        dial-IsTidy random a listen s (subst (λ q. IsTidyIn q s) e c)
    dial_at random a listen up s e c = c
    dial_at random a listen (sleeping until) s e c = c

    step-IsTidy : (e : Event) (s : Starting) → IsTidy s → IsTidy (step crypto auth e s)
    unfolding step
    step-IsTidy (passes time) s c = c
    step-IsTidy (dials random a listen) s c = dial_at random a listen s.phase s refl c
    step-IsTidy wakes s c = wake_at s.phase s refl c
    step-IsTidy loses s c = if-IsTidy s.closed _ s (lose_at s.phase s refl c) c
    step-IsTidy server_closes s c = c
    step-IsTidy signals s c = c
    step-IsTidy (keeps n arrives) s c =
        at_helper-IsTidy keep_alive n (send_keep_alive arrives n) s
          (λ h.
            unfold send_keep_alive in (ground arith, ground (arith, working-remove_at n s.helpers)))
          c
    step-IsTidy (checks n reachable) s c =
        at_helper-IsTidy health_check n (health_check_loop reachable) s
          (λ h. unfold health_check_loop in (ground arith, ground arith)) c
    step-IsTidy (turns n loaded listen) s c =
        at_helper-IsTidy reloads n (take_turn loaded listen) s
          (λ h. unfold take_turn in (refl, omega arith)) c
    step-IsTidy (sees_end n) s c = end_helper-IsTidy n s c

    run-IsTidy : (l : List Event) (s : Starting) → IsTidy s → IsTidy (run crypto auth l s)
    unfolding run
    run-IsTidy [] s c = c
    run-IsTidy (e ∷ l) s c = run-IsTidy l (step crypto auth e s) (step-IsTidy e s c)

-- The first goroutine in the list sees its end, and then the next one.
abbrev pub ends : ℕ → List Event
ends zero = []
ends (suc n) = sees_end 0 ∷ ends n

is_kind_refl : (k : Kind) → is_kind k k ≡ true
is_kind_refl keep_alive = refl
is_kind_refl health_check = refl
is_kind_refl reloads = refl

idle_lem : (h : Helper) (hs : List Helper) → working h.kind (h ∷ hs) ≤ 0 → h.cancelled ≡ true
idle_lem h hs none_work = ground (arith, is_kind_refl h.kind, none_work)

module _ (crypto : Crypto) (auth : Authenticator) where
  ends-helpers :
      (hs : List Helper) (s : Starting)
      → s.helpers ≡ hs
      → ((k : Kind) → working k hs ≤ 0)
      → (run crypto auth (ends (length hs)) s).helpers ≡ []
  unfolding run step
  ends-helpers [] s same none_work = same
  ends-helpers (h ∷ hs) s same none_work =
      let over : h.cancelled ≡ true = idle_lem h hs (none_work h.kind) in
      let rest : (end_helper 0 s).helpers ≡ hs = ground (arith, same, over) in
      ends-helpers hs (end_helper 0 s) rest (λ k. ground (arith, none_work k))

  drained_at :
      (p : Phase) (s : Starting)
      → ((k : Kind) → IsTidyIn k p s)
      → (is_up p ≡ true) ⊎ ((run crypto auth (ends (length s.helpers)) s).helpers ≡ [])
  drained_at dialling s c = inr (ends-helpers s.helpers s refl c)
  drained_at up s c = inl refl
  drained_at (sleeping until) s c = inr (ends-helpers s.helpers s refl c)

  -- However the loop of `Start`, the goroutines that take the context of a connection and the server
  -- take turns, and whatever the dials answer: at most one sendKeepAlive, one healthCheckLoop and one
  -- reloadLoop has a context that is not cancelled, and none has where there is no connection; and then
  -- none of them is left once each has seen that its context is cancelled.
  pub helpers_bounded :
      (l : List Event) (now : ℕ) (client : Running) (k : Kind)
      → let s = run crypto auth l (start now client) in
        (working k s.helpers ≤ most s.phase)
        × ((is_up s.phase ≡ true) ⊎ ((run crypto auth (ends (length s.helpers)) s).helpers ≡ []))
  helpers_bounded l now client k =
      let tidy : (j : Kind) → IsTidy j (run crypto auth l (start now client)) =
        λ j. run-IsTidy j crypto auth l (start now client) (omega arith) in
      let s = run crypto auth l (start now client) in (tidy k, drained_at s.phase s tidy)
