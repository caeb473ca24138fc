-- ===== src/Auth/Blocker/Streak.antt =====
-- What a run of failures does to one address.
use tbore.Base.{
  ℕ, suc, ◌+◌, ◌<◌, ◌^◌, ◌≡◌, refl, ap, ◌∙◌, String, string_eq, length, All, leb, ltb,
  if◌then◌else◌, ◌&&◌, List, [], ◌∷◌, ◌++◌, none, arith,
}
use mathlib.Core.Option
use tbore.Base.Int.{pos, increment_pos}
use tbore.Auth.Record.{AuthFailureRecord, zero_record, is_blocked}
use tbore.Auth.Store.{Bucket, Json, IsReliable}
use tbore.Auth.Blocker.{AuthBlocker, fail_again}
use tbore.Auth.Blocker.Spec.{Settings, Memory, blocks, note_failure}
use tbore.Auth.Blocker.Refinement.{Call, checks, fails, run, expect, Implements, run-Implements}

-- Failures at the given times, oldest first.
streak : Settings → List ℕ → AuthFailureRecord → AuthFailureRecord
streak s [] rec = rec
streak s (t ∷ ts) rec = streak s ts (fail_again s.max_failures s.block_dur t rec)

abbrev pub last_or : ℕ → List ℕ → ℕ
last_or t [] = t
last_or t (u ∷ us) = last_or u us

-- The end of the block that the failures lead to.
abbrev pub until : Settings → ℕ → List ℕ → ℕ → ℕ
until s n [] old = old
until s n (t ∷ ts) old =
    if leb s.max_failures (n + length (t ∷ ts)) then last_or t ts + s.block_dur else old

streak-until :
    (s : Settings) (ts : List ℕ) (n : ℕ) (rec : AuthFailureRecord)
    → rec.fail_count ≡ pos n
    → n + length ts < 2 ^ 63
    → (streak s ts rec).blocked_until ≡ until s n ts rec.blocked_until
unfolding streak fail_again
streak-until s [] n rec e h = refl
streak-until s (t ∷ []) n rec e h = ground (arith, increment_pos n)
streak-until s (t ∷ u ∷ ts) n rec e h = ground (
  arith,
  increment_pos n,
  streak-until s (u ∷ ts) (suc n) (fail_again s.max_failures s.block_dur t rec),
)

abbrev pub all_fail : String → List ℕ → List (ℕ × Call)
all_fail ip [] = []
all_fail ip (t ∷ ts) = (t, fails ip) ∷ all_fail ip ts

-- An address without a record counts as one with the zero record.
pub blocks-record :
    (m : Memory) (ip : String) (now : ℕ)
    → blocks m ip now ≡ is_blocked (Option.get_or (m ip) zero_record) now
unfolding blocks is_blocked
blocks-record m ip now = ground arith

pub noted :
    (s : Settings) (ip : String) (t : ℕ) (m : Memory)
    → Option.get_or (note_failure s ip t m ip) zero_record
      ≡ fail_again s.max_failures s.block_dur t (Option.get_or (m ip) zero_record)
unfolding note_failure
noted s ip t m = ground arith

-- Blocked exactly from the failure that reaches the threshold until `block_dur` after the last one.
streak-blocked :
    (s : Settings) (t : ℕ) (ts : List ℕ) (now : ℕ)
    → length (t ∷ ts) < 2 ^ 63
    → is_blocked (streak s (t ∷ ts) zero_record) now
      ≡ (leb s.max_failures (length (t ∷ ts)) && ltb now (last_or t ts + s.block_dur))
unfolding is_blocked
streak-blocked s t ts now h = ground (arith, streak-until s (t ∷ ts) 0 zero_record refl)

streak-expect :
    (s : Settings) (ip : String) (ts : List ℕ) (now : ℕ) (m : Memory)
    → (expect s (all_fail ip ts ++ (now, checks ip) ∷ []) m).1
      ≡ is_blocked (streak s ts (Option.get_or (m ip) zero_record)) now ∷ []
unfolding expect streak
streak-expect s ip [] now m = ap (λ b. b ∷ []) (blocks-record m ip now)
streak-expect s ip (t ∷ ts) now m =
    streak-expect s ip ts now (note_failure s ip t m)
    ∙ ap (λ r. is_blocked (streak s ts r) now ∷ []) (noted s ip t m)

-- Over a reliable database, from a blocker that holds nothing of an address: after failures at
-- `t`, then `ts`, fewer than 2 ^ 63 and early enough for `limit`, the address is blocked at `now`
-- exactly if they are `max_failures` at least and the last one is less than `block_dur` ago.
pub run-streak :
    {B : Bucket} {J : Json} {limit : ℕ} (reliable : IsReliable B J limit) (s : Settings)
    (b : AuthBlocker B) (m : Memory) (ip : String) (t : ℕ) (ts : List ℕ) (now : ℕ)
    → Implements B J s b m
    → m ip ≡ none
    → length (t ∷ ts) < 2 ^ 63
    → All (λ c. c.0 + s.block_dur < limit) (all_fail ip (t ∷ ts) ++ (now, checks ip) ∷ [])
    → (run J (all_fail ip (t ∷ ts) ++ (now, checks ip) ∷ []) b).1
      ≡ (leb s.max_failures (length (t ∷ ts)) && ltb now (last_or t ts + s.block_dur)) ∷ []
run-streak {J} reliable s b m ip t ts now i new short timely =
    (run-Implements reliable s (all_fail ip (t ∷ ts) ++ (now, checks ip) ∷ []) b m timely i).0
    ∙ streak-expect s ip (t ∷ ts) now m
    ∙ rw new (ap (λ x. x ∷ []) (streak-blocked s t ts now short))
