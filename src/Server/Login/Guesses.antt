-- ===== src/Server/Login/Guesses.antt =====
-- How many passwords can be tried from one address.
use tbore.Base.{
  ℕ, suc, ◌+◌, ◌-◌, ◌^◌, ◌≤◌, ◌<◌, ◌≡◌, refl, sym, ap, ◌∙◌, String, length, All, true, false, List,
  [], ◌∷◌, Option, none, some, arith, Bool-cases, inl, inr,
}
use mathlib.Core.Option
use tbore.Base.Int.{pos, increment, increment_pos}
use tbore.Auth.Record.{AuthFailureRecord, zero_record, is_blocked}
use tbore.Auth.Store.{Bucket, Json, IsReliable}
use tbore.Auth.Blocker.{AuthBlocker, fail_again}
use tbore.Auth.Blocker.Spec.{Settings, Memory, blocks, note_failure}
use tbore.Auth.Blocker.Refinement.{Implements}
use tbore.Auth.Blocker.Streak.{blocks-record, noted}
use tbore.Auth.Authenticator.{Crypto, Authenticator}
use tbore.Server.Login.{Verdict, temporarily_blocked, password_callback}
use tbore.Server.Login.Outcome.{
  is_right, verdict, remember_blocked, remember_wrong, password_callback-Implements,
}

pub record Attempt : Type 0 where
  pub now : ℕ
  pub later : ℕ
  pub pass : List ℕ

-- Logins from one address, one after the other.
unfoldable pub logins :
    {B : Bucket}
    → Json
    → Crypto
    → Authenticator
    → String
    → List Attempt
    → Option (AuthBlocker B)
    → List Verdict
unfolding password_callback
logins json crypto a ip [] blocker = []
logins json crypto a ip (x ∷ l) blocker =
    let (blocker', v) = password_callback json crypto a ip x.now x.later x.pass blocker in
    v ∷ logins json crypto a ip l blocker'

-- The logins whose password was looked at.
abbrev pub guesses : List Verdict → ℕ
guesses [] = 0
guesses (temporarily_blocked ∷ l) = guesses l
guesses (_ ∷ l) = suc (guesses l)

module _ (s : Settings) (crypto : Crypto) (a : Authenticator) (limit finish : ℕ) where
  -- A wrong password that is tried before `finish`, at most `block_dur` before it.
  pub record IsGuess (x : Attempt) : Type 0 where
    pub early : x.now < finish
    pub recent : finish ≤ x.later + s.block_dur
    pub timely : x.later + s.block_dur < limit
    pub wrong : is_right crypto a x.pass ≡ false

-- What the memory holds of the address before the attempts: `n` failures, and if these are enough,
-- a block until `finish` at least.
record Counts (s : Settings) (finish n : ℕ) (rec : AuthFailureRecord) : Type 0 where
  count : rec.fail_count ≡ pos n
  held : s.max_failures ≤ n → finish ≤ rec.blocked_until

Counts-free :
    (s : Settings) (finish n : ℕ) (rec : AuthFailureRecord) (now : ℕ)
    → Counts s finish n rec
    → now < finish
    → is_blocked rec now ≡ false
    → n < s.max_failures
unfolding is_blocked
Counts-free s finish n rec now c early free = ground arith

Counts-fail_again :
    (s : Settings) (finish n : ℕ) (rec : AuthFailureRecord) (later : ℕ)
    → Counts s finish n rec
    → suc n < 2 ^ 63
    → finish ≤ later + s.block_dur
    → Counts s finish (suc n) (fail_again s.max_failures s.block_dur later rec)
unfolding fail_again
Counts-fail_again s finish n rec later c small recent = record {
  count = ap increment c.count ∙ increment_pos n small;
  held = λ enough. ground (arith, ap increment c.count ∙ increment_pos n small);
}

verdict_wrong :
    (crypto : Crypto) (a : Authenticator) (ip : String) (now : ℕ) (pass : List ℕ) (m : Memory)
    (l : List Verdict)
    → blocks m ip now ≡ false
    → is_right crypto a pass ≡ false
    → guesses (verdict crypto a ip now pass m ∷ l) ≡ suc (guesses l)
unfolding verdict
verdict_wrong crypto a ip now pass m l free wrong = ground arith

verdict_blocked :
    (crypto : Crypto) (a : Authenticator) (ip : String) (now : ℕ) (pass : List ℕ) (m : Memory)
    → blocks m ip now ≡ true
    → verdict crypto a ip now pass m ≡ temporarily_blocked
unfolding verdict
verdict_blocked crypto a ip now pass m h = rw h

module _ {B : Bucket} {J : Json} {limit : ℕ} (reliable : IsReliable B J limit) (s : Settings)
    (crypto : Crypto) (a : Authenticator) (ip : String) (finish : ℕ) where
  logins-le :
      (l : List Attempt) (b : AuthBlocker B) (m : Memory) (n : ℕ)
      → Implements B J s b m
      → Counts s finish n (Option.get_or (m ip) zero_record)
      → n + length l < 2 ^ 63
      → All (IsGuess s crypto a limit finish) l
      → guesses (logins J crypto a ip l (some b)) ≤ s.max_failures - n
  unfolding logins
  logins-le [] b m n i c small g = omega arith
  logins-le (x ∷ l) b m n i c small g =
      let (b', same, i') =
        password_callback-Implements reliable s crypto a b m ip x.now x.later x.pass g.0.timely i in
      rw (same, logins)
        (elim (Bool-cases (blocks m ip x.now)) [
          | inl blocked ↦
              let quiet = remember_blocked s crypto a ip x.now x.later x.pass m blocked in
              let rest = logins-le l b' m n (rw quiet at i') c (omega arith) g.1 in
              rw (verdict_blocked crypto a ip x.now x.pass m blocked) rest
          | inr free ↦
              let room : n < s.max_failures =
                Counts-free s finish n _ x.now c g.0.early
                  (sym (blocks-record m ip x.now) ∙ free) in
              let told = remember_wrong s crypto a ip x.now x.later x.pass m free g.0.wrong in
              let c' : Counts s finish (suc n)
                  (Option.get_or (note_failure s ip x.later m ip) zero_record) =
                rw (noted s ip x.later m)
                  (Counts-fail_again s finish n _ x.later c (omega arith) g.0.recent) in
              let rest = logins-le l b' _ (suc n) (rw told at i') c' (omega arith) g.1 in
              rw (verdict_wrong crypto a ip x.now x.pass m _ free g.0.wrong) (omega (arith, rest))
        ])

  -- Over a reliable database and with a positive `max_failures`: of fewer than 2 ^ 63 wrong
  -- passwords that come one after the other from an address of which nothing is held, each checked
  -- before `finish` and recorded at most `block_dur` before it, at most `max_failures` are looked
  -- at. The others are refused unread.
  pub guesses_bounded :
      (l : List Attempt) (b : AuthBlocker B) (m : Memory)
      → Implements B J s b m
      → m ip ≡ none
      → 0 < s.max_failures
      → length l < 2 ^ 63
      → All (IsGuess s crypto a limit finish) l
      → guesses (logins J crypto a ip l (some b)) ≤ s.max_failures
  guesses_bounded l b m i new positive short g =
      let none_yet : Counts s finish 0 (Option.get_or (m ip) zero_record) =
        rw new (record { count = refl; held = λ h. absurd (omega arith) }) in
      let bound = logins-le l b m 0 i none_yet (omega arith) g in omega arith
