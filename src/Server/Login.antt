-- ===== src/Server/Login.antt =====
-- pkg/server/server.go, the `PasswordCallback` of `Start` and the first lines of
-- `handleConnection`; and `ExtractIP` of pkg/auth/blocker.go.
pub mod Outcome
pub mod Guesses
pub mod Handshake
use tbore.Base.{
  ℕ, ◌≡◌, String, length, take, drop, ltb, if◌then◌else◌, Bool, true, false, not, List, Option,
  none, some,
}
use mathlib.Core.Option
use tbore.Auth.Store.{Bucket, Json}
use tbore.Auth.Blocker.{AuthBlocker, is_blocked, record_failure, reset_failure}
use tbore.Auth.Authenticator.{Crypto, Authenticator, validate_response}

-- `split` is the host of `net.SplitHostPort`, which fails on an address without a port.
unfoldable pub extract_ip : (String → Option String) → String → String
extract_ip split remote_addr = elim (split remote_addr) [ none ↦ remote_addr | some host ↦ host ]

pub data Verdict : Type 0 where
  accepted temporarily_blocked invalid_data authentication_failed : Verdict

module _ {B : Bucket} (J : Json) where
  -- `s.blocker != nil && s.blocker.IsBlocked(ip)`
  unfoldable pub check_blocked : String → ℕ → Option (AuthBlocker B) → Option (AuthBlocker B) × Bool
  check_blocked ip now blocker = elim blocker [
    | none ↦ (none, false)
    | some b ↦ let (b', answer) = is_blocked J ip now b in (some b', answer)
  ]

  -- The check of an address at `now`, and the record of a failure at `later`.
  unfoldable pub password_callback :
      Crypto
      → Authenticator
      → String
      → ℕ
      → ℕ
      → List ℕ
      → Option (AuthBlocker B)
      → Option (AuthBlocker B) × Verdict
  password_callback crypto a ip now later pass blocker =
      let (blocker', refused) = check_blocked ip now blocker in
      if refused
      then (blocker', temporarily_blocked)
      else if ltb (length pass) 32
      then (Option.map (record_failure J ip later) blocker', invalid_data)
      else if not (validate_response crypto a (take 32 pass) (drop 32 pass))
      then (Option.map (record_failure J ip later) blocker', authentication_failed)
      else (Option.map (reset_failure ip) blocker', accepted)

-- The check before the SSH handshake: whether the connection goes on to it.
unfoldable pub pre_handshake :
    {B : Bucket} → Json → String → ℕ → Option (AuthBlocker B) → Option (AuthBlocker B) × Bool
unfolding check_blocked
pre_handshake json ip now blocker =
    let (blocker', refused) = check_blocked json ip now blocker in (blocker', not refused)
