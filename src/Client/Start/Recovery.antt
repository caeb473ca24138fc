-- ===== src/Client/Start/Recovery.antt =====
-- A connection on which a keep-alive fails is replaced.
use tbore.Base.{
  ℕ, ◌+◌, ◌≤◌, ◌≡◌, refl, ap, ◌∙◌, All, get_elem?, true, false, List, [], ◌∷◌, ◌++◌, some, arith,
  Option-cases, Bool-cases, inl, inr,
}
use tbore.Auth.Authenticator.{Crypto, Authenticator}
use tbore.Client.Start.{
  dialling, up, sleeping, Helper, Kind, keep_alive, health_check, reloads, Starting, retry, lose,
  send_keep_alive, health_check_loop, take_turn, Event, passes, dials, wakes, loses, server_closes,
  signals, keeps, checks, turns, sees_end, is_kind, at_helper, end_helper, step, run,
}

-- What the other goroutines do, and the time that passes.
abbrev pub IsBeside : Event → Type 0
IsBeside (passes time) = Unit
IsBeside (dials random answer listen) = ⊥
IsBeside wakes = ⊥
IsBeside loses = ⊥
IsBeside server_closes = Unit
IsBeside signals = Unit
IsBeside (keeps n arrives) = Unit
IsBeside (checks n reachable) = Unit
IsBeside (turns n loaded listen) = Unit
IsBeside (sees_end n) = Unit

-- The loop of `Start` does not go on, and no connection is opened again.
abbrev Waits : Starting → Starting → Type 0
Waits s s' =
    (s'.phase ≡ s.phase)
    × (s'.ssh_client ≡ s.ssh_client)
    × (s.now ≤ s'.now)
    × ((s.closed ≡ true) → (s'.closed ≡ true))

at_helper-Waits :
    (kind : Kind) (n : ℕ) (act : Helper → Starting → Starting) (s : Starting)
    → ((h : Helper) → Waits s (act h s))
    → Waits s (at_helper kind n act s)
at_helper-Waits kind n act s waits = elim (Option-cases (get_elem? s.helpers n)) [
  | inl missing ↦ rw (missing, at_helper) (refl, refl, omega arith, λ c. c)
  | inr (h, there) ↦ elim (Bool-cases (is_kind kind h.kind)) [
    | inl right ↦ rw (there, right, at_helper) (waits h)
    | inr wrong ↦ rw (there, wrong, at_helper) (refl, refl, omega arith, λ c. c)
  ]
]

end_helper-Waits : (n : ℕ) (s : Starting) → Waits s (end_helper n s)
end_helper-Waits n s = elim (Option-cases (get_elem? s.helpers n)) [
  | inl missing ↦ rw (missing, end_helper) (refl, refl, omega arith, λ c. c)
  | inr (h, there) ↦ elim (Bool-cases h.cancelled) [
    | inl over ↦ rw (there, over, end_helper) (refl, refl, omega arith, λ c. c)
    | inr goes ↦ rw (there, goes, end_helper) (refl, refl, omega arith, λ c. c)
  ]
]

module _ (crypto : Crypto) (auth : Authenticator) where
  step-Waits : (e : Event) (s : Starting) → IsBeside e → Waits s (step crypto auth e s)
  unfolding step
  step-Waits (passes time) s beside = (refl, refl, omega arith, λ c. c)
  step-Waits (dials random answer listen) s beside = absurd beside
  step-Waits wakes s beside = absurd beside
  step-Waits loses s beside = absurd beside
  step-Waits server_closes s beside = (refl, refl, omega arith, λ c. refl)
  step-Waits signals s beside = (refl, refl, omega arith, λ c. c)
  step-Waits (keeps n arrives) s beside =
      at_helper-Waits keep_alive n (send_keep_alive arrives n) s (λ h.
        unfold send_keep_alive in
        (ground arith, ground arith, ground arith, λ c. ground (arith, c)))
  step-Waits (checks n reachable) s beside =
      at_helper-Waits health_check n (health_check_loop reachable) s (λ h.
        unfold health_check_loop in
        (ground arith, ground arith, ground arith, λ c. ground (arith, c)))
  step-Waits (turns n loaded listen) s beside =
      at_helper-Waits reloads n (take_turn loaded listen) s
        (λ h. unfold take_turn in (refl, refl, omega arith, λ c. c))
  step-Waits (sees_end n) s beside = end_helper-Waits n s

  run-Waits : (l : List Event) (s : Starting) → All IsBeside l → Waits s (run crypto auth l s)
  unfolding run
  run-Waits [] s beside = (refl, refl, omega arith, λ c. c)
  run-Waits (e ∷ l) s beside =
      let (same, same', later, shut) = step-Waits e s beside.0 in
      let (same2, same2', later', shut') = run-Waits l (step crypto auth e s) beside.1 in
      (same2 ∙ same, same2' ∙ same', omega (arith, later, later'), λ c. shut' (shut c))

  run-append :
      (l l' : List Event) (s : Starting)
      → run crypto auth (l ++ l') s ≡ run crypto auth l' (run crypto auth l s)
  unfolding run
  run-append [] l' s = refl
  run-append (e ∷ l) l' s = run-append l l' (step crypto auth e s)

  keep_fails :
      (n : ℕ) (h : Helper) (s : Starting)
      → get_elem? s.helpers n ≡ some h
      → h.kind ≡ keep_alive
      → h.cancelled ≡ false
      → ((step crypto auth (keeps n false) s).phase ≡ s.phase)
        × ((step crypto auth (keeps n false) s).closed ≡ true)
  unfolding step send_keep_alive
  keep_fails n h s there is_keep works =
      let right : is_kind keep_alive h.kind ≡ true = ap (is_kind keep_alive) is_keep in
      rw (there, right, at_helper) (refl, ground (arith, works))

  lost_lem :
      (s : Starting)
      → s.phase ≡ up
      → s.closed ≡ true
      → ((step crypto auth loses s).phase ≡ sleeping (s.now + retry))
        × ((step crypto auth loses s).ssh_client ≡ false)
        × ((step crypto auth loses s).now ≡ s.now)
  unfolding step lose
  lost_lem s stands shut =
      (ground (arith, shut, stands), ground (arith, shut, stands), ground (arith, shut, stands))

  woken_lem :
      (until : ℕ) (s : Starting)
      → s.phase ≡ sleeping until
      → until ≤ s.now
      → ((step crypto auth wakes s).phase ≡ dialling)
        × ((step crypto auth wakes s).ssh_client ≡ s.ssh_client)
  unfolding step
  woken_lem until s sleeps due = (ground (arith, sleeps, due), ground (arith, sleeps, due))

  -- Beside a connection, if a keep-alive of a goroutine whose context is not cancelled fails, then
  -- whatever the other goroutines do before `client.Wait` returns, and during the wait after it, which
  -- lasts five seconds at least: the client dials again, with no connection in `sshClient`.
  pub failed_keep_alive_redials :
      (n : ℕ) (h : Helper) (l l' : List Event) (s : Starting)
      → s.phase ≡ up
      → get_elem? s.helpers n ≡ some h
      → h.kind ≡ keep_alive
      → h.cancelled ≡ false
      → All IsBeside l
      → All IsBeside l'
      → ((run crypto auth
            (keeps n false ∷ (l ++ (loses ∷ passes retry ∷ (l' ++ (wakes ∷ [])))))
            s).phase
          ≡ dialling)
        × ((run crypto auth
              (keeps n false ∷ (l ++ (loses ∷ passes retry ∷ (l' ++ (wakes ∷ [])))))
              s).ssh_client
            ≡ false)
  failed_keep_alive_redials n h l l' s stands there is_keep works beside beside' =
      let s1 = step crypto auth (keeps n false) s in
      let s2 = run crypto auth l s1 in
      let s4 = step crypto auth (passes retry) (step crypto auth loses s2) in
      let s5 = run crypto auth l' s4 in
      let (same, shut) = keep_fails n h s there is_keep works in
      let (same2, _, _, shut') = run-Waits l s1 beside in
      let (sleeps, gone, at) = lost_lem s2 (same2 ∙ same ∙ stands) (shut' shut) in
      let (same5, same5', later, _) = run-Waits l' s4 beside' in
      let passed : s4.now ≡ s2.now + retry = unfold step in omega (arith, at) in
      let (dials_again, as_before) =
        woken_lem (s2.now + retry) s5 (same5 ∙ (unfold step in sleeps))
          (omega (arith, later, passed)) in
      let all : run crypto auth
            (keeps n false ∷ (l ++ (loses ∷ passes retry ∷ (l' ++ (wakes ∷ []))))) s
          ≡ step crypto auth wakes s5 =
        unfold run in
        run-append l (loses ∷ passes retry ∷ (l' ++ (wakes ∷ []))) s1
        ∙ run-append l' (wakes ∷ []) s4 in
      (
        ap (λ x. x.phase) all ∙ dials_again,
        ap (λ x. x.ssh_client) all ∙ as_before ∙ same5' ∙ (unfold step in gone),
      )
