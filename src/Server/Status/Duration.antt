-- ===== src/Server/Status/Duration.antt =====
-- pkg/server/status.go, formatDuration and the first line of the status page. What package time
-- computes in floating point is a parameter.
pub mod Value
mod Tests
use tbore.Base.{ℕ, ◌%◌, String, ltb, if◌then◌else◌, ◌||◌, Bool, List, [], ◌∷◌, ◌++◌}
use tbore.Base.Int.{ℤ}
use tbore.Config.{ServerConfig}

-- `int(d.Hours() / 24)`, `int(d.Hours())`, `int(d.Minutes())` and `int(d.Seconds())`, of a duration that
-- is not negative, in nanoseconds.
pub record Clock : Type 0 where
  pub days : ℕ → ℕ
  pub hours : ℕ → ℕ
  pub minutes : ℕ → ℕ
  pub seconds : ℕ → ℕ

pub data TimeUnit : Type 0 where
  day hour minute whole_second : TimeUnit

-- One part of the text, such as "5m".
pub record Part : Type 0 where
  pub amount : ℕ
  pub unit : TimeUnit

-- `if b { parts = append(parts, …) }`
abbrev pub part_if : Bool → ℕ → TimeUnit → List Part
part_if b amount unit = if b then record { amount = amount; unit = unit } ∷ [] else []

unfoldable pub parts_of : ℕ → ℕ → ℕ → ℕ → List Part
parts_of days hours minutes seconds =
    part_if (ltb 0 days) days day
    ++ (part_if (ltb 0 hours || ltb 0 days) hours hour
        ++ (part_if (ltb 0 minutes || (ltb 0 hours || ltb 0 days)) minutes minute
            ++ record { amount = seconds; unit = whole_second } ∷ []))

unfoldable pub format_duration : Clock → ℕ → List Part
unfolding parts_of
format_duration C d = parts_of (C.days d) (C.hours d % 24) (C.minutes d % 60) (C.seconds d % 60)

-- The line "Status: Running".
pub record Header : Type 0 where
  pub bind_addr : String
  pub port : ℤ
  pub uptime : List Part

unfoldable pub header : Clock → ServerConfig → ℕ → Header
unfolding format_duration
header C cfg uptime = record {
  bind_addr = cfg.bind_addr;
  port = cfg.port;
  uptime = format_duration C uptime;
}
