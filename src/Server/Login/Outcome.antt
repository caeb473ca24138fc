-- ===== src/Server/Login/Outcome.antt =====
-- The password callback against the unbounded memory that the blocker implements.
use tbore.Base.{
  ℕ, ◌+◌, ◌<◌, ◌≡◌, String, length, take, drop, ltb, if◌then◌else◌, Bool, true, false, not, ◌&&◌,
  List, some, arith, Bool-cases, inl, inr,
}
use tbore.Auth.Store.{Bucket, Json, IsReliable}
use tbore.Auth.Blocker.{AuthBlocker, is_blocked, record_failure, reset_failure}
use tbore.Auth.Blocker.Spec.{Settings, Memory, blocks, note_failure, forget}
use tbore.Auth.Blocker.Refinement.{
  Implements, is_blocked-Implements, record_failure-Implements, reset_failure-Implements,
}
use tbore.Auth.Authenticator.{Crypto, Authenticator, validate_response}
use tbore.Server.Login.{
  pre_handshake, Verdict, accepted, temporarily_blocked, invalid_data, authentication_failed,
  check_blocked, password_callback,
}

-- A password of at least 32 bytes whose rest answers the first 32.
unfoldable pub is_right : Crypto → Authenticator → List ℕ → Bool
is_right crypto a pass =
    not (ltb (length pass) 32) && validate_response crypto a (take 32 pass) (drop 32 pass)

unfoldable pub verdict : Crypto → Authenticator → String → ℕ → List ℕ → Memory → Verdict
verdict crypto a ip now pass m =
    if blocks m ip now
    then temporarily_blocked
    else if is_right crypto a pass
    then accepted
    else if ltb (length pass) 32
    then invalid_data
    else authentication_failed

unfoldable pub remember :
    Settings → Crypto → Authenticator → String → ℕ → ℕ → List ℕ → Memory → Memory
remember s crypto a ip now later pass m =
    if blocks m ip now
    then m
    else if is_right crypto a pass
    then forget ip m
    else note_failure s ip later m

module _ (s : Settings) (crypto : Crypto) (a : Authenticator) (ip : String) (now later : ℕ)
    (pass : List ℕ) (m : Memory) where
  pub remember_blocked : blocks m ip now ≡ true → remember s crypto a ip now later pass m ≡ m
  unfolding remember
  remember_blocked h = rw h

  remember_right :
      blocks m ip now ≡ false
      → is_right crypto a pass ≡ true
      → remember s crypto a ip now later pass m ≡ forget ip m
  unfolding remember
  remember_right free right = rw (free, right)

  pub remember_wrong :
      blocks m ip now ≡ false
      → is_right crypto a pass ≡ false
      → remember s crypto a ip now later pass m ≡ note_failure s ip later m
  unfolding remember
  remember_wrong free wrong = rw (free, wrong)

module _ {B : Bucket} {J : Json} {limit : ℕ} (reliable : IsReliable B J limit) (s : Settings)
    (crypto : Crypto) (a : Authenticator) where
  -- Over a reliable database, at a time at which a block would end before `limit`, and for a
  -- blocker that implements a memory: while an address is blocked every password is refused, the
  -- right one too, and the memory stays as it is; otherwise the right password clears the address,
  -- and any other is a failure that is recorded.
  pub password_callback-Implements :
      (b : AuthBlocker B) (m : Memory) (ip : String) (now later : ℕ) (pass : List ℕ)
      → later + s.block_dur < limit
      → Implements B J s b m
      → (b' : AuthBlocker B) × (password_callback J crypto a ip now later pass (some b)
          ≡ (some b', verdict crypto a ip now pass m))
        × Implements B J s b' (remember s crypto a ip now later pass m)
  unfolding password_callback check_blocked verdict
  password_callback-Implements b m ip now later pass h i =
      let (answer, i') = is_blocked-Implements reliable s b m ip now i in
      let b' = (is_blocked J ip now b).0 in
      elim (Bool-cases (blocks m ip now)) [
        | inl yes_blocked ↦ (
          b',
          ground (arith, answer),
          rw (remember_blocked s crypto a ip now later pass m yes_blocked) i',
        )
        | inr free ↦ elim (Bool-cases (is_right crypto a pass)) [
          | inl right ↦ (
            reset_failure ip b',
            unfold is_right in ground (arith, answer),
            rw (remember_right s crypto a ip now later pass m free right)
                (reset_failure-Implements reliable s b' m ip i'),
          )
          | inr wrong ↦ (
            record_failure J ip later b',
            unfold is_right in ground (arith, answer),
            rw (remember_wrong s crypto a ip now later pass m free wrong)
                (record_failure-Implements reliable s b' m ip later h i'),
          )
        ]
      ]

  -- Over a reliable database and for a blocker that implements a memory: before the handshake a
  -- connection is closed exactly if its address is blocked, and the memory stays as it is.
  pre_handshake-Implements :
      (b : AuthBlocker B) (m : Memory) (ip : String) (now : ℕ)
      → Implements B J s b m
      → (b' : AuthBlocker B) × (pre_handshake J ip now (some b) ≡ (some b', not (blocks m ip now)))
        × Implements B J s b' m
  unfolding pre_handshake check_blocked
  pre_handshake-Implements b m ip now i =
      let (answer, i') = is_blocked-Implements reliable s b m ip now i in
      ((is_blocked J ip now b).0, ground (arith, answer), i')
