-- ===== src/Auth/Blocker/Lifecycle/Closing.antt =====
-- The database of a blocker is open as long as its goroutine may clean it, and Close comes to an end.
use tbore.Base.{
  ℕ, ◌<◌, ◌≡◌, refl, ap, subst, ◌∙◌, ◌==◌, nat_eq, All, true, false, ◌&&◌, List, [], ◌∷◌, ◌++◌,
  Option, none, some, arith, Option-cases, Bool-cases, inl, inr, ◌⊎◌,
}
use mathlib.Core.Option.{some-injective}
use tbore.Auth.Store.{Bucket, Json}
use tbore.Auth.Blocker.{
  AuthBlocker, AuthBlockerConfig, Disk, ok, or_default, new_auth_blocker, default_clean_interval,
}
use tbore.Auth.Blocker.Lifecycle.{
  opened, Lifecycle, start_cleaning, close_db, Event, ticks, stops, closes, returns, asks, fails,
  resets, clean_loop, close_begins, close_returns, step, run,
}
use tbore.Auth.Blocker.Lifecycle.Database.{
  is_open, is_shut, clean_expired-open, record_failure-open, is_blocked-open, reset_failure-open,
}

-- The calls of other goroutines, and the turns of the loop.
abbrev pub IsOther : Event → Type 0
IsOther (ticks now) = Unit
IsOther stops = Unit
IsOther closes = ⊥
IsOther returns = ⊥
IsOther (asks ip now) = Unit
IsOther (fails ip now) = Unit
IsOther (resets ip) = Unit

-- Anything but a call of `Close`.
abbrev pub IsNotClose : Event → Type 0
IsNotClose (ticks now) = Unit
IsNotClose stops = Unit
IsNotClose closes = ⊥
IsNotClose returns = Unit
IsNotClose (asks ip now) = Unit
IsNotClose (fails ip now) = Unit
IsNotClose (resets ip) = Unit

module _ (B : Bucket) (J : Json) where
  -- The database is open until the goroutine has ended.
  abbrev IsAvailable : Lifecycle B → Type 0
  IsAvailable s = s.stopped ≡ false → is_open B s.blocker ≡ true

  clean_loop-IsAvailable :
      (tick : Option ℕ) (s : Lifecycle B) → IsAvailable s → IsAvailable (clean_loop J tick s)
  unfolding clean_loop
  clean_loop-IsAvailable (some now) s c goes = elim (Bool-cases s.stopped) [
    | inl over ↦ absurd (ground (arith, over, goes))
    | inr yet ↦ rw (yet, clean_loop) (clean_expired-open B J now s.blocker ∙ c yet)
  ]
  clean_loop-IsAvailable none s c goes = elim (Bool-cases s.stop) [
    | inl shut ↦ absurd (ground (arith, shut, goes))
    | inr yet ↦ rw (yet, clean_loop) (c (ground (arith, yet, goes)))
  ]

  step-IsAvailable :
      (e : Event) (s s' : Lifecycle B) → step J e s ≡ some s' → IsAvailable s → IsAvailable s'
  unfolding step
  step-IsAvailable (ticks now) s s' h c =
      subst IsAvailable (some-injective _ _ h) (clean_loop-IsAvailable (some now) s c)
  step-IsAvailable stops s s' h c =
      subst IsAvailable (some-injective _ _ h) (clean_loop-IsAvailable none s c)
  step-IsAvailable closes s s' h c = elim (Bool-cases s.stop) [
    | inl twice ↦ absurd (unfold close_begins in ground (arith, twice, h))
    | inr once ↦
        let begun : Lifecycle B = record s { stop = true; closing = true } in
        let same : begun ≡ s' = unfold close_begins in ground (arith, once, h) in
        subst IsAvailable same c
  ]
  step-IsAvailable returns s s' h c = subst IsAvailable (some-injective _ _ h) (λ goes.
      unfold close_returns in
      elim (Bool-cases (s.closing && s.stopped)) [
        | inl back ↦ absurd (ground (arith, back, goes))
        | inr waits ↦ ground (arith, waits, goes, c (ground (arith, waits, goes)))
      ])
  step-IsAvailable (asks ip now) s s' h c =
      subst IsAvailable (some-injective _ _ h)
        (λ goes. is_blocked-open B J ip now s.blocker ∙ c goes)
  step-IsAvailable (fails ip now) s s' h c =
      subst IsAvailable (some-injective _ _ h)
        (λ goes. record_failure-open B J ip now s.blocker ∙ c goes)
  step-IsAvailable (resets ip) s s' h c =
      subst IsAvailable (some-injective _ _ h)
        (λ goes. reset_failure-open B J ip s.blocker ∙ c goes)

  run-IsAvailable :
      (l : List Event) (s s' : Lifecycle B) → run J l s ≡ some s' → IsAvailable s → IsAvailable s'
  unfolding run
  run-IsAvailable [] s s' h c = subst IsAvailable (some-injective _ _ h) c
  run-IsAvailable (e ∷ l) s s' h c = elim (Option-cases (step J e s)) [
    | inl panics ↦ absurd (ground (arith, panics, h))
    | inr (s1, goes) ↦
        run-IsAvailable l s1 s' (ground (arith, goes, h)) (step-IsAvailable e s s1 goes c)
  ]

  is_open-opened : (b : AuthBlocker B) → is_open B (opened b) ≡ true
  unfolding is_open opened
  is_open-opened b = ground arith

  others_run :
      (l : List Event) (s : Lifecycle B)
      → All IsOther l
      → (s' : Lifecycle B) × (run J l s ≡ some s') × (s'.stop ≡ s.stop) × (s'.closing ≡ s.closing)
  unfolding run step
  others_run [] s others = (s, refl, refl, refl)
  others_run (ticks now ∷ l) s others =
      let (s', goes, same, same') = others_run l (clean_loop J (some now) s) others.1 in
      (
        s',
        goes,
        same ∙ (unfold clean_loop in ground arith),
        same' ∙ (unfold clean_loop in ground arith),
      )
  others_run (stops ∷ l) s others =
      let (s', goes, same, same') = others_run l (clean_loop J none s) others.1 in
      (
        s',
        goes,
        same ∙ (unfold clean_loop in ground arith),
        same' ∙ (unfold clean_loop in ground arith),
      )
  others_run (closes ∷ l) s others = absurd others.0
  others_run (returns ∷ l) s others = absurd others.0
  others_run (asks ip now ∷ l) s others = others_run l _ others.1
  others_run (fails ip now ∷ l) s others = others_run l _ others.1
  others_run (resets ip ∷ l) s others = others_run l _ others.1

  step_not_close :
      (e : Event) (s : Lifecycle B)
      → IsNotClose e
      → (s' : Lifecycle B) × (step J e s ≡ some s')
        × (s'.stop ≡ s.stop)
        × ((s.stop ≡ true) ⊎ (s'.stopped ≡ s.stopped))
  unfolding step
  step_not_close (ticks now) s h =
      (_, refl, unfold clean_loop in ground arith, unfold clean_loop in ground arith)
  step_not_close stops s h =
      (_, refl, unfold clean_loop in ground arith, unfold clean_loop in ground arith)
  step_not_close closes s h = absurd h
  step_not_close returns s h =
      (_, refl, unfold close_returns in ground arith, unfold close_returns in ground arith)
  step_not_close (asks ip now) s h = (_, refl, refl, inr refl)
  step_not_close (fails ip now) s h = (_, refl, refl, inr refl)
  step_not_close (resets ip) s h = (_, refl, refl, inr refl)

  not_close_run :
      (l : List Event) (s : Lifecycle B)
      → All IsNotClose l
      → (s' : Lifecycle B) × (run J l s ≡ some s')
        × (s'.stop ≡ s.stop)
        × ((s.stop ≡ true) ⊎ (s'.stopped ≡ s.stopped))
  unfolding run
  not_close_run [] s h = (s, refl, refl, inr refl)
  not_close_run (e ∷ l) s h =
      let (s1, goes, same, stays) = step_not_close e s h.0 in
      let (s2, ran, same', stays') = not_close_run l s1 h.1 in
      (s2, rw (goes, run) ran, same' ∙ same, ground (arith, same, stays, stays'))

  run-append :
      (l l' : List Event) (s s1 : Lifecycle B)
      → run J l s ≡ some s1
      → run J (l ++ l') s ≡ run J l' s1
  unfolding run
  run-append [] l' s s1 h = ap (run J l') (some-injective _ _ h)
  run-append (e ∷ l) l' s s1 h = elim (Option-cases (step J e s)) [
    | inl panics ↦ absurd (ground (arith, panics, h))
    | inr (s2, goes) ↦ rw (goes, run) (run-append l l' s2 s1 (ground (arith, goes, h)))
  ]

new-clean_inter :
    {B : Bucket} (disk : Disk B.Db) (cfg : AuthBlockerConfig) (b : AuthBlocker B)
    → new_auth_blocker B disk cfg ≡ ok b
    → (b.clean_inter == 0) ≡ false
unfolding new_auth_blocker
new-clean_inter {B} disk cfg b h =
    let inter = or_default cfg.clean_interval default_clean_interval in
    let positive : 0 < inter = unfold or_default in ground arith in
    let same : b.clean_inter ≡ inter = ground arith in rw same (ground (arith, positive))

module _ (B : Bucket) (J : Json) (disk : Disk B.Db) (cfg : AuthBlockerConfig) (b : AuthBlocker B)
    (made : new_auth_blocker B disk cfg ≡ ok b) where
  abbrev begun : Lifecycle B
  begun = record { blocker = opened b; stop = false; stopped = false; closing = false }

  starts : start_cleaning b ≡ some begun
  unfolding start_cleaning
  starts = let positive = new-clean_inter disk cfg b made in rw positive refl

  -- A blocker that NewAuthBlocker gives starts to clean its records in the background without panic.
  -- Until `Close` is called, after whatever ticks and calls of other methods, its goroutine has not ended
  -- and its database is open. After a first call, whatever follows but a second one, nothing panics
  -- either, and the database is open as long as the goroutine has not ended.
  pub cleaned_open :
      (l l' : List Event)
      → All IsNotClose l
      → All IsNotClose l'
      → (s s1 s2 : Lifecycle B) × (start_cleaning b ≡ some s)
        × (run J l s ≡ some s1)
        × (s1.stopped ≡ false)
        × (is_open B s1.blocker ≡ true)
        × (run J (closes ∷ l') s1 ≡ some s2)
        × ((s2.stopped ≡ true) ⊎ (is_open B s2.blocker ≡ true))
  cleaned_open l l' none_closes none_closes' =
      let (s1, ran, not_shut, goes) = not_close_run B J l begun none_closes in
      let available = run-IsAvailable B J l begun s1 ran (λ _. is_open-opened B J b) in
      let s1' : Lifecycle B = record s1 { stop = true; closing = true } in
      let closed : close_begins s1 ≡ some s1' = unfold close_begins in rw not_shut refl in
      let (s2, ran', _, _) = not_close_run B J l' s1' none_closes' in
      let still : s1.stopped ≡ false = ground (arith, goes) in
      let available' = run-IsAvailable B J l' s1' s2 ran' available in
      (
        begun,
        s1,
        s2,
        starts,
        ran,
        still,
        available still,
        unfold run step in rw (closed, run) ran',
        elim (Bool-cases s2.stopped) [ inl over ↦ inl over | inr yet ↦ inr (available' yet) ],
      )

  -- Of such a blocker, a call of `Close` ends, once the goroutine has seen that `stop` is closed, after
  -- whatever ticks and calls of other methods come before the call and during it; then the
  -- goroutine has ended, and no database is open.
  pub close_ends :
      (l l' : List Event)
      → All IsOther l
      → All IsOther l'
      → (s s' : Lifecycle B) × (start_cleaning b ≡ some s)
        × (run J (l ++ (closes ∷ (l' ++ (stops ∷ returns ∷ [])))) s ≡ some s')
        × (s'.stopped ≡ true)
        × (s'.closing ≡ false)
        × (is_shut B s'.blocker ≡ true)
  close_ends l l' others others' =
      let (s1, ran, not_shut, _) = others_run B J l begun others in
      let s2 : Lifecycle B = record s1 { stop = true; closing = true } in
      let (s3, ran', shut, waits) = others_run B J l' s2 others' in
      let closed : close_begins s1 ≡ some s2 = unfold close_begins in rw not_shut refl in
      let s4 : Lifecycle B = record s3 {
        stopped = true;
        closing = false;
        blocker = close_db B s3.blocker;
      } in
      let over : run J (stops ∷ returns ∷ []) s3 ≡ some s4 =
        unfold run step clean_loop close_returns in ground (arith, shut, waits) in
      (
        begun,
        s4,
        starts,
        run-append B J l (closes ∷ (l' ++ (stops ∷ returns ∷ []))) begun s1 ran
            ∙ (unfold run step in
                rw (closed, run) (run-append B J l' (stops ∷ returns ∷ []) s2 s3 ran' ∙ over)),
        refl,
        refl,
        unfold is_shut close_db in ground arith,
      )
