-- ===== src/Server/Status/Duration/Tests.antt =====
-- The uptime of a server, with times that are computed exactly.
use tbore.Base.{ℕ, ◌+◌, ◌*◌, ◌/◌, ◌^◌, ◌≡◌, refl, All, [], ◌∷◌, arith}
use tbore.Auth.Blocker.{second}
use tbore.Server.Sample.{config}
use tbore.Server.Status.Duration.{
  Clock, day, hour, minute, whole_second, parts_of, format_duration, header,
}
use tbore.Server.Status.Duration.Value.{value, IsWithin, StartsAboveZero, header-value}

abbrev exact_clock : Clock
exact_clock = record {
  days = λ d. d / second / 86_400;
  hours = λ d. d / second / 3600;
  minutes = λ d. d / second / 60;
  seconds = λ d. d / second;
}

-- A day, one minute, two seconds and one nanosecond.
abbrev uptime : ℕ
uptime = 86_462 * second + 1

header-value_example :
    (value (header exact_clock config uptime).uptime ≡ uptime / second)
    × All (λ p. IsWithin p.unit p.amount) (header exact_clock config uptime).uptime
    × StartsAboveZero (header exact_clock config uptime).uptime
header-value_example =
    header-value exact_clock (2 ^ 63) config uptime
      (record {
        days = λ d small. refl;
        hours = λ d small. refl;
        minutes = λ d small. refl;
        seconds = λ d small. refl;
      })
      (omega arith)

text :
    format_duration exact_clock uptime
    ≡ record { amount = 1; unit = day }
      ∷ record { amount = 0; unit = hour }
      ∷ record { amount = 1; unit = minute }
      ∷ record { amount = 2; unit = whole_second }
      ∷ []
unfolding format_duration parts_of
text = refl
