-- ===== src/Auth/Authenticator.antt =====
-- pkg/auth/authenticator.go: the challenge and its response. A Go string that is cut into pieces is
-- a list of bytes. SHA-256, HMAC and the random source are parameters.
use tbore.Base.{
  ℕ, ◌+◌, ◌-◌, ◌*◌, ◌/◌, ◌%◌, ◌≡◌, refl, sym, ◌↔◌, ◌==◌, nat_eq, ltb, length, if◌then◌else◌, Bool,
  true, false, ◌&&◌, List, [], ◌∷◌, arith,
}

pub record Crypto : Type 0 where
  pub sha256 : List ℕ → List ℕ
  pub hmac_sha256 : List ℕ → List ℕ → List ℕ

pub record Authenticator : Type 0 where
  pub secret : List ℕ

-- `hex.EncodeToString`
abbrev pub hex_digit : ℕ → ℕ
hex_digit n = if ltb n 10 then b'0' + n else b'a' + (n - 10)

unfoldable pub encode_to_string : List ℕ → List ℕ
encode_to_string [] = []
encode_to_string (b ∷ bs) = hex_digit (b / 16) ∷ hex_digit (b % 16) ∷ encode_to_string bs

-- `hmac.Equal`
unfoldable pub equal : List ℕ → List ℕ → Bool
equal [] [] = true
equal (x ∷ xs) (y ∷ ys) = x == y && equal xs ys
equal _ _ = false

-- `random` is what `rand.Read` fills the 16 bytes with.
unfoldable pub generate_challenge : List ℕ → List ℕ
generate_challenge random = encode_to_string random

module _ (C : Crypto) where
  unfoldable pub new_authenticator : List ℕ → Authenticator
  new_authenticator secret = record { secret = C.sha256 secret }

  unfoldable pub compute_response : Authenticator → List ℕ → List ℕ
  compute_response a challenge = encode_to_string (C.hmac_sha256 a.secret challenge)

  unfoldable pub validate_response : Authenticator → List ℕ → List ℕ → Bool
  validate_response a challenge response = equal (compute_response a challenge) response

pub length-encode_to_string : (bs : List ℕ) → length (encode_to_string bs) ≡ 2 * length bs
unfolding encode_to_string
length-encode_to_string [] = refl
length-encode_to_string (b ∷ bs) = omega (arith, length-encode_to_string bs)

equal_sound : (xs ys : List ℕ) → equal xs ys ≡ true → xs ≡ ys
unfolding equal
equal_sound [] [] h = refl
equal_sound [] (y ∷ ys) h = absurd (ground arith)
equal_sound (x ∷ xs) [] h = absurd (ground arith)
equal_sound (x ∷ xs) (y ∷ ys) h = ground (arith, equal_sound xs ys)

pub equal_refl : (xs : List ℕ) → equal xs xs ≡ true
unfolding equal
equal_refl [] = refl
equal_refl (x ∷ xs) = ground (arith, equal_refl xs)

-- A response is valid exactly if it is the one that the holder of the secret computes.
pub validate_response_iff :
    (C : Crypto) (a : Authenticator) (challenge response : List ℕ)
    → (validate_response C a challenge response ≡ true)
      ↔ (response ≡ compute_response C a challenge)
unfolding validate_response
validate_response_iff crypto a challenge response =
    (λ h. sym (equal_sound _ _ h), λ e. rw e (equal_refl _))
