-- ===== src/Client/Start/Rate.antt =====
-- How often a client logs in.
use tbore.Base.{
  ℕ, ◌+◌, ◌*◌, ◌≤◌, ◌≡◌, refl, subst, leb→le, length, get_elem?, leb, if◌then◌else◌, Bool, true,
  false, List, [], ◌∷◌, Option, arith, Option-cases, Bool-cases, inl, inr,
}
use tbore.Config.{TunnelConfig}
use tbore.Auth.Authenticator.{Crypto, Authenticator}
use tbore.Client.Reloads.{Running}
use tbore.Client.Start.{
  Phase, dialling, up, sleeping, Helper, Kind, Starting, start, Answer, retry, dial, lose,
  send_keep_alive, health_check_loop, Event, passes, dials, wakes, loses, server_closes, signals,
  keeps, checks, turns, sees_end, take_turn, is_let_in, step, run, at_helper, is_kind, end_helper,
  keep_alive, health_check, reloads, wake, when_dialling, when_up,
}

-- The earliest time of the next dial.
abbrev next_dial : Phase → ℕ → ℕ
next_dial dialling now = now
next_dial up now = now + retry
next_dial (sleeping until) now = until

-- Each dial was followed by a wait, and the present wait is no longer.
abbrev SlowIn : ℕ → Phase → Starting → Type 0
SlowIn from p s =
    (from + retry * length s.dials ≤ next_dial p s.now) × (next_dial p s.now ≤ s.now + retry)

abbrev IsSlow : ℕ → Starting → Type 0
IsSlow from s = SlowIn from s.phase s

next_dial_mono :
    (p : Phase) (now time : ℕ)
    → (next_dial p now ≤ next_dial p (now + time))
      × (next_dial p (now + time) ≤ next_dial p now + time)
next_dial_mono dialling now time = omega arith
next_dial_mono up now time = omega arith
next_dial_mono (sleeping until) now time = omega arith

-- Neither the clock nor the loop goes on.
abbrev IsAside : Starting → Starting → Type 0
IsAside s s' = (s'.dials ≡ s.dials) × (s'.phase ≡ s.phase) × (s'.now ≡ s.now)

module _ (from : ℕ) where
  aside-IsSlow : (s s' : Starting) → IsAside s s' → IsSlow from s → IsSlow from s'
  aside-IsSlow s s' (same, same', same'') h = rw (same, same', same'') h

  at_helper-IsAside :
      (kind : Kind) (n : ℕ) (act : Helper → Starting → Starting) (s : Starting)
      → ((h : Helper) → IsAside s (act h s))
      → IsAside s (at_helper kind n act s)
  at_helper-IsAside kind n act s aside = elim (Option-cases (get_elem? s.helpers n)) [
    | inl missing ↦ rw (missing, at_helper) (refl, refl, refl)
    | inr (h, there) ↦ elim (Bool-cases (is_kind kind h.kind)) [
      | inl right ↦ rw (there, right, at_helper) (aside h)
      | inr wrong ↦ rw (there, wrong, at_helper) (refl, refl, refl)
    ]
  ]

  at_helper-IsSlow :
      (kind : Kind) (n : ℕ) (act : Helper → Starting → Starting) (s : Starting)
      → ((h : Helper) → IsAside s (act h s))
      → IsSlow from s
      → IsSlow from (at_helper kind n act s)
  at_helper-IsSlow kind n act s aside h =
      aside-IsSlow s (at_helper kind n act s) (at_helper-IsAside kind n act s aside) h

  end_helper-IsAside : (n : ℕ) (s : Starting) → IsAside s (end_helper n s)
  end_helper-IsAside n s = elim (Option-cases (get_elem? s.helpers n)) [
    | inl missing ↦ rw (missing, end_helper) (refl, refl, refl)
    | inr (h, there) ↦ elim (Bool-cases h.cancelled) [
      | inl over ↦ rw (there, over, end_helper) (refl, refl, refl)
      | inr goes ↦ rw (there, goes, end_helper) (refl, refl, refl)
    ]
  ]

  slow_in : (p : Phase) (s : Starting) → s.phase ≡ p → IsSlow from s → SlowIn from p s
  slow_in p s e h = subst (λ q. SlowIn from q s) e h

  if-IsSlow :
      (b : Bool) (s s' : Starting)
      → IsSlow from s
      → IsSlow from s'
      → IsSlow from (if b then s else s')
  if-IsSlow true s s' h h' = h
  if-IsSlow false s s' h h' = h'

  wake_at : (p : Phase) (s : Starting) → s.phase ≡ p → IsSlow from s → IsSlow from (wake p s)
  wake_at dialling s e h = h
  wake_at up s e h = h
  wake_at (sleeping until) s e h = elim (Bool-cases (leb until s.now)) [
    | inl due ↦
        rw (due, wake) (omega (arith, slow_in (sleeping until) s e h, leb→le until s.now due))
    | inr early ↦ rw (early, wake) h
  ]

  lose_at :
      (p : Phase) (s : Starting) → s.phase ≡ p → IsSlow from s → IsSlow from (when_up p lose s)
  unfolding lose
  lose_at dialling s e h = h
  lose_at up s e h = omega (arith, slow_in up s e h)
  lose_at (sleeping until) s e h = h

module _ (crypto : Crypto) (auth : Authenticator) (from : ℕ) where
  dial-IsSlow :
      (random : List ℕ) (a : Answer) (listen : TunnelConfig → Option ℕ) (s : Starting)
      → from + retry * length s.dials ≤ s.now
      → IsSlow from (dial crypto auth random a listen s)
  unfolding dial
  dial-IsSlow random a listen s h = elim (Bool-cases (is_let_in s.client.client.cfg a)) [
    | inr refused ↦ rw (refused, dial) (omega (arith, h))
    | inl let_in ↦ elim (Bool-cases a.takes_info) [
      | inl told ↦ rw (let_in, told, dial) (omega (arith, h))
      | inr untold ↦ rw (let_in, untold, dial) (omega (arith, h))
    ]
  ]

  dial_at :
      (random : List ℕ) (a : Answer) (listen : TunnelConfig → Option ℕ) (p : Phase) (s : Starting)
      → s.phase ≡ p
      → IsSlow from s
      → IsSlow from (when_dialling p (dial crypto auth random a listen) s)
  dial_at random a listen dialling s e h =
      dial-IsSlow random a listen s (slow_in from dialling s e h).0
  dial_at random a listen up s e h = h
  dial_at random a listen (sleeping until) s e h = h

  step-IsSlow : (e : Event) (s : Starting) → IsSlow from s → IsSlow from (step crypto auth e s)
  unfolding step
  step-IsSlow (passes time) s h = omega (arith, h, next_dial_mono s.phase s.now time)
  step-IsSlow (dials random a listen) s h = dial_at random a listen s.phase s refl h
  step-IsSlow wakes s h = wake_at from s.phase s refl h
  step-IsSlow loses s h = if-IsSlow from s.closed _ s (lose_at from s.phase s refl h) h
  step-IsSlow server_closes s h = h
  step-IsSlow signals s h = h
  step-IsSlow (keeps n arrives) s h =
      at_helper-IsSlow from keep_alive n (send_keep_alive arrives n) s
        (λ x. unfold send_keep_alive in (ground arith, ground arith, ground arith)) h
  step-IsSlow (checks n reachable) s h =
      at_helper-IsSlow from health_check n (health_check_loop reachable) s
        (λ x. unfold health_check_loop in (ground arith, ground arith, ground arith)) h
  step-IsSlow (turns n loaded listen) s h =
      at_helper-IsSlow from reloads n (take_turn loaded listen) s
        (λ x. unfold take_turn in (refl, refl, refl)) h
  step-IsSlow (sees_end n) s h =
      aside-IsSlow from s (end_helper n s) (end_helper-IsAside from n s) h

  run-IsSlow : (l : List Event) (s : Starting) → IsSlow from s → IsSlow from (run crypto auth l s)
  unfolding run
  run-IsSlow [] s h = h
  run-IsSlow (e ∷ l) s h = run-IsSlow l (step crypto auth e s) (step-IsSlow e s h)

-- However the loop of `Start`, the goroutines beside it and the server take turns, and whatever the
-- dials answer: a client that runs since a time dials at most once, and once more for every five
-- seconds since.
pub dials_spaced :
    (crypto : Crypto) (auth : Authenticator) (l : List Event) (from : ℕ) (client : Running)
    → from + retry * length (run crypto auth l (start from client)).dials
      ≤ (run crypto auth l (start from client)).now + retry
dials_spaced crypto auth l from client =
    let slow = run-IsSlow crypto auth from l (start from client) (omega arith) in
    omega (arith, slow)
