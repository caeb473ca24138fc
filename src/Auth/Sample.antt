-- ===== src/Auth/Sample.antt =====
-- A database in memory and an encoding of records, which meet what the model assumes of bbolt and
-- of encoding/json.
pub mod Blocker
pub mod Keys
use tbore.Base.{
  ℕ, zero, suc, ◌<◌, ◌+◌, ◌*◌, ◌^◌, ◌≡◌, refl, subst, ◌==◌, nat_eq, String, string_eq, length, ltb,
  if◌then◌else◌, ◌&&◌, List, [], ◌∷◌, Option, none, some, arith, Bool-cases, inl, inr,
}
use mathlib.Core.Option
use mathlib.Core.Option.{some-injective, none-ne-some}
use tbore.Base.Int.{ℤ, pos, negsuc, InRange64}
use tbore.Base.GoMap.{
  GoMap, lookup, insert, delete, NodupKeys, lookup-insert, lookup-delete, insert-NodupKeys,
  delete-NodupKeys,
}
use tbore.Auth.Record.{AuthFailureRecord}
use tbore.Auth.Store.{Bucket, IsBucket, Commits, Json, IsRepresentable, IsJson, IsReliable}

-- The first instant of the year 10000.
abbrev pub year_10000 : ℕ
year_10000 = 315_537_897_600 * 1_000_000_000

abbrev pub memory_bucket : Bucket
memory_bucket = record {
  Db = (m : GoMap String (List ℕ)) × NodupKeys m;
  get = λ d k. Option.get_or (lookup k d.0) [];
  put = λ d k v. some (insert k v d.0, insert-NodupKeys k v d.0 d.1);
  delete = λ d k. some (delete k d.0, delete-NodupKeys k d.0 d.1);
  cursor = λ d. d.0;
}

memory_bucket-IsBucket : IsBucket memory_bucket
memory_bucket-IsBucket = record {
  get-put = λ d d' k j v h.
      subst
        (λ (x : memory_bucket.Db).
          memory_bucket.get x j ≡ (if j == k then v else memory_bucket.get d j))
        (some-injective _ _ h) (ground (arith, lookup-insert j k v d.0));
  get-delete = λ d d' k j h.
      subst
        (λ (x : memory_bucket.Db).
          memory_bucket.get x j ≡ (if j == k then [] else memory_bucket.get d j))
        (some-injective _ _ h) (ground (arith, lookup-delete j k d.0));
  get-cursor = λ d k. refl;
  cursor-NodupKeys = λ d. d.1;
}

abbrev count_code : ℤ → List ℕ → List ℕ
count_code (pos n) rest = 0 ∷ n ∷ rest
count_code (negsuc n) rest = 1 ∷ n ∷ rest

abbrev read_record : ℤ → ℕ → ℕ → ℕ → Option AuthFailureRecord
read_record count n last until =
    if ltb n (2 ^ 63) && (ltb last year_10000 && ltb until year_10000)
    then some (record { fail_count = count; last_fail_at = last; blocked_until = until })
    else none

read_code : List ℕ → Option AuthFailureRecord
read_code (zero ∷ n ∷ last ∷ until ∷ []) = read_record (pos n) n last until
read_code (suc zero ∷ n ∷ last ∷ until ∷ []) = read_record (negsuc n) n last until
read_code _ = none

unfoldable pub record_codec : Json
unfolding read_code
record_codec = record {
  marshal = λ r. some (count_code r.fail_count (r.last_fail_at ∷ r.blocked_until ∷ []));
  unmarshal = read_code;
}

read-count_code :
    (r : AuthFailureRecord) (count : ℤ)
    → r.fail_count ≡ count
    → IsRepresentable year_10000 r
    → read_code (count_code count (r.last_fail_at ∷ r.blocked_until ∷ [])) ≡ some r
unfolding read_code
read-count_code r (pos n) e h =
    let fits : n < 2 ^ 63 = rw e at h.count in ground (arith, fits, h.last, h.until)
read-count_code r (negsuc n) e h =
    let fits : n < 2 ^ 63 = rw e at h.count in ground (arith, fits, h.last, h.until)

read_record-IsRepresentable :
    (count : ℤ) (n last until : ℕ) (r : AuthFailureRecord)
    → (n < 2 ^ 63 → InRange64 count)
    → read_record count n last until ≡ some r
    → IsRepresentable year_10000 r
read_record-IsRepresentable count n last until r fits h =
    elim (Bool-cases (ltb n (2 ^ 63) && (ltb last year_10000 && ltb until year_10000))) [
      | inr bad ↦ absurd (ground arith)
      | inl good ↦
          subst (IsRepresentable year_10000) (some-injective _ _ (rw good at h))
            (record { count = fits (ground arith); last = ground arith; until = ground arith })
    ]

read_code-IsRepresentable :
    (bytes : List ℕ) (r : AuthFailureRecord)
    → read_code bytes ≡ some r
    → IsRepresentable year_10000 r
unfolding read_code
read_code-IsRepresentable (zero ∷ n ∷ last ∷ until ∷ []) r h =
    read_record-IsRepresentable (pos n) n last until r (λ x. x) h
read_code-IsRepresentable (suc zero ∷ n ∷ last ∷ until ∷ []) r h =
    read_record-IsRepresentable (negsuc n) n last until r (λ x. x) h
read_code-IsRepresentable _ r h = absurd (none-ne-some r h)

count_code_pos : (count : ℤ) (rest : List ℕ) → 0 < length (count_code count rest)
count_code_pos (pos n) rest = omega arith
count_code_pos (negsuc n) rest = omega arith

pub sample-IsReliable : IsReliable memory_bucket record_codec year_10000
unfolding record_codec
sample-IsReliable = record {
  bucket = memory_bucket-IsBucket;
  commits = record { put = λ d k v. (_, refl); delete = λ d k. (_, refl) };
  json = record {
    unmarshal-marshal =
        λ r h. (_, refl, read-count_code r r.fail_count refl h, count_code_pos r.fail_count _);
    unmarshal-IsRepresentable = read_code-IsRepresentable;
  };
}
