-- ===== src/Server/Status/Duration/Value.antt =====
-- The text of a duration says how many whole seconds it has.
use tbore.Base.{
  ℕ, zero, suc, ◌+◌, ◌*◌, ◌/◌, ◌%◌, ◌<◌, ◌≡◌, refl, string_eq, ltb, ◌||◌, All, Bool, true, false,
  List, [], ◌∷◌, arith, lt→ltb,
}
use tbore.Config.{ServerConfig}
use tbore.Auth.Blocker.{second}
use tbore.Server.Status.Duration.{
  Clock, TimeUnit, day, hour, minute, whole_second, Part, parts_of, format_duration, header,
}

-- What floating point gives exactly, below some limit.
pub record IsExact (C : Clock) (limit : ℕ) : Type 0 where
  pub days : (d : ℕ) → d < limit → C.days d ≡ d / second / 86_400
  pub hours : (d : ℕ) → d < limit → C.hours d ≡ d / second / 3600
  pub minutes : (d : ℕ) → d < limit → C.minutes d ≡ d / second / 60
  pub seconds : (d : ℕ) → d < limit → C.seconds d ≡ d / second

abbrev pub unit_seconds : TimeUnit → ℕ
unit_seconds day = 86_400
unit_seconds hour = 3600
unit_seconds minute = 60
unit_seconds whole_second = 1

-- The seconds that the parts stand for.
abbrev pub value : List Part → ℕ
value [] = 0
value (p ∷ l) = p.amount * unit_seconds p.unit + value l

-- Less than one of the next unit.
abbrev pub IsWithin : TimeUnit → ℕ → Type 0
IsWithin day amount = Unit
IsWithin hour amount = amount < 24
IsWithin minute amount = amount < 60
IsWithin whole_second amount = amount < 60

-- The first part is not 0, unless it is the only one.
abbrev pub StartsAboveZero : List Part → Type 0
StartsAboveZero [] = ⊥
StartsAboveZero (p ∷ []) = Unit
StartsAboveZero (p ∷ q ∷ l) = 0 < p.amount

or_true : (b : Bool) → (b || true) ≡ true
or_true true = refl
or_true false = refl

parts_of-value :
    (days hours minutes seconds : ℕ)
    → hours < 24
    → minutes < 60
    → seconds < 60
    → (value (parts_of days hours minutes seconds)
        ≡ days * 86_400 + (hours * 3600 + (minutes * 60 + seconds)))
      × All (λ p. IsWithin p.unit p.amount) (parts_of days hours minutes seconds)
      × StartsAboveZero (parts_of days hours minutes seconds)
unfolding parts_of
parts_of-value (suc days) hours minutes seconds a b c =
    let more : ltb 0 (suc days) ≡ true = lt→ltb 0 (suc days) (omega arith) in
    rw (more, or_true (ltb 0 hours), or_true (ltb 0 minutes), parts_of) (omega (arith, a, b, c))
parts_of-value zero (suc hours) minutes seconds a b c =
    let more : ltb 0 (suc hours) ≡ true = lt→ltb 0 (suc hours) (omega arith) in
    rw (more, or_true (ltb 0 minutes), parts_of) (omega (arith, a, b, c))
parts_of-value zero zero (suc minutes) seconds a b c =
    let more : ltb 0 (suc minutes) ≡ true = lt→ltb 0 (suc minutes) (omega arith) in
    rw (more, parts_of) (omega (arith, b, c))
parts_of-value zero zero zero seconds a b c = omega (arith, c)

-- Below the limit up to which floating point is exact: the parts of the uptime on the status page stand
-- for its whole seconds, only days are not less than one of the next unit, and the first part is not
-- 0, unless it is the only one.
pub header-value :
    (C : Clock) (limit : ℕ) (cfg : ServerConfig) (d : ℕ)
    → IsExact C limit
    → d < limit
    → (value (header C cfg d).uptime ≡ d / second)
      × All (λ p. IsWithin p.unit p.amount) (header C cfg d).uptime
      × StartsAboveZero (header C cfg d).uptime
unfolding header format_duration
header-value C limit cfg d exact small =
    let n = d / second in
    let (all, within, starts) =
      parts_of-value (n / 86_400) (n / 3600 % 24) (n / 60 % 60) (n % 60) (omega arith) (omega arith)
        (omega arith) in
    rw (exact.days d small, exact.hours d small, exact.minutes d small, exact.seconds d small)
      (omega (arith, all), within, starts)
