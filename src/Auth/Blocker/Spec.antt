-- ===== src/Auth/Blocker/Spec.antt =====
-- What `AuthBlocker` promises: an unbounded memory of the failures of each address.
use tbore.Base.{
  ℕ, ◌-◌, ◌==◌, String, string_eq, if◌then◌else◌, Bool, false, not, ◌&&◌, ◌||◌, Option, none, some,
}
use tbore.Auth.Record.{AuthFailureRecord, zero_record, is_zero, before}
use tbore.Auth.Record
use tbore.Auth.Blocker.{fail_again}
use mathlib.Core.Option

pub record Settings : Type 0 where
  pub max_failures : ℕ
  pub block_dur : ℕ
  pub record_ttl : ℕ

abbrev pub Memory : Type 0
Memory = String → Option AuthFailureRecord

unfoldable pub blocks : Memory → String → ℕ → Bool
blocks m ip now = elim (m ip) [ none ↦ false | some rec ↦ Record.is_blocked rec now ]

unfoldable pub note_failure : Settings → String → ℕ → Memory → Memory
note_failure s ip now m j =
    if j == ip
    then some (fail_again s.max_failures s.block_dur now (Option.get_or (m ip) zero_record))
    else m j

unfoldable pub forget : String → Memory → Memory
forget ip m j = if j == ip then none else m j

-- Not blocked now, and the last failure is longer ago than the time to live.
unfoldable pub is_expired : ℕ → ℕ → AuthFailureRecord → Bool
is_expired ttl now rec =
    not (Record.is_blocked rec now)
    && (is_zero rec.last_fail_at || before rec.last_fail_at (now - ttl))

unfoldable pub keep_fresh : ℕ → ℕ → Option AuthFailureRecord → Option AuthFailureRecord
keep_fresh ttl now found = elim found [
  | none ↦ none
  | some rec ↦ if is_expired ttl now rec then none else some rec
]

unfoldable pub sweep : Settings → ℕ → Memory → Memory
sweep s now m j = keep_fresh s.record_ttl now (m j)
