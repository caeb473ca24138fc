-- ===== src/Server/Login/Handshake.antt =====
-- A client that holds the token gets in.
use tbore.Base.{
  ℕ, ◌≤◌, ◌≡◌, refl, ◌↔◌, length, take, drop, take-append, drop-append, length-append, true, false,
  ◌++◌, String, List, none, some, arith,
}
use tbore.Auth.Authenticator.{
  Crypto, Authenticator, new_authenticator, generate_challenge, encode_to_string, compute_response,
  validate_response, length-encode_to_string, validate_response_iff,
}
use tbore.Client.Dial.{auth_string}
use tbore.Auth.Store.{Bucket, Json}
use tbore.Auth.Blocker.{AuthBlocker, is_blocked, reset_failure}
use tbore.Server.Login.{accepted, check_blocked, password_callback}
use tbore.Server.Login.Outcome.{is_right}

take-prefix : (n : ℕ) (xs ys : List ℕ) → length xs ≡ n → take n (xs ++ ys) ≡ xs
take-prefix n xs ys e = rw (← e) (take-append xs ys)

drop-prefix : (n : ℕ) (xs ys : List ℕ) → length xs ≡ n → drop n (xs ++ ys) ≡ ys
drop-prefix n xs ys e = rw (← e) (drop-append xs ys)

is_right-auth_string :
    (crypto : Crypto) (token random : List ℕ)
    → length random ≡ 16
    → is_right crypto
        (new_authenticator crypto token)
        (auth_string crypto (new_authenticator crypto token) random)
      ≡ true
unfolding is_right auth_string generate_challenge
is_right-auth_string crypto token random h =
    let a = new_authenticator crypto token in
    let challenge = encode_to_string random in
    let response = compute_response crypto a challenge in
    let long : length challenge ≡ 32 = omega (arith, length-encode_to_string random) in
    let valid : validate_response crypto a challenge response ≡ true =
      (validate_response_iff crypto a challenge response).1 refl in
    rw (take-prefix 32 challenge response long, drop-prefix 32 challenge response long, valid)
      (ground (arith, length-append challenge response))

-- The string that a client sends for 16 random bytes lets it in at a server with the same token: if
-- the server has a blocker, and its address is not blocked at that time, its failures are forgotten as
-- well; and a server without a blocker lets it in too.
pub password_callback-auth_string :
    {B : Bucket} (J : Json) (crypto : Crypto) (token random : List ℕ) (ip : String) (now later : ℕ)
    (b : AuthBlocker B)
    → length random ≡ 16
    → (is_blocked J ip now b).1 ≡ false
    → let a = new_authenticator crypto token in
      let pass = auth_string crypto a random in
      (password_callback J crypto a ip now later pass (some b)
        ≡ (some (reset_failure ip (is_blocked J ip now b).0), accepted))
      × (password_callback {B = B} J crypto a ip now later pass none ≡ (none, accepted))
unfolding password_callback check_blocked
password_callback-auth_string J crypto token random ip now later b long free =
    let right = is_right-auth_string crypto token random long in
    unfold is_right in (ground (arith, right, free), ground (arith, right))

-- A password is right exactly if it has 32 bytes at least and its rest is the response to the
-- first 32.
is_right_iff :
    (crypto : Crypto) (a : Authenticator) (pass : List ℕ)
    → (is_right crypto a pass ≡ true)
      ↔ ((32 ≤ length pass) × (drop 32 pass ≡ compute_response crypto a (take 32 pass)))
unfolding is_right
is_right_iff crypto a pass =
    let law = validate_response_iff crypto a (take 32 pass) (drop 32 pass) in
    (
      λ h. (ground arith, law.0 (ground arith)),
      λ h. let valid = law.1 h.1 in ground (arith, valid, h.0),
    )
