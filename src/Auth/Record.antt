-- ===== src/Auth/Record.antt =====
-- pkg/auth/blocker.go, `AuthFailureRecord`. A `time.Time` is the number of nanoseconds since
-- January 1 of year 1, which is Go's zero time; a `time.Duration` is a number of nanoseconds.
use tbore.Base.{ℕ, ◌==◌, nat_eq, ltb, Bool, not, ◌&&◌}
use tbore.Base.Int.{ℤ, pos}

abbrev pub is_zero : ℕ → Bool
is_zero t = t == 0

abbrev pub before : ℕ → ℕ → Bool
before t u = ltb t u

pub record AuthFailureRecord : Type 0 where
  pub fail_count : ℤ
  pub last_fail_at : ℕ
  pub blocked_until : ℕ

-- `&AuthFailureRecord{}`
abbrev pub zero_record : AuthFailureRecord
zero_record = record { fail_count = pos 0; last_fail_at = 0; blocked_until = 0 }

unfoldable pub is_blocked : AuthFailureRecord → ℕ → Bool
is_blocked r now = not (is_zero r.blocked_until) && before now r.blocked_until
