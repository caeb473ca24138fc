-- ===== src/Auth/Blocker/Coherence.antt =====
-- The cache of `AuthBlocker` agrees with its database, through every method that changes either.
use tbore.Base.{
  ℕ, ◌+◌, ◌<◌, ◌≡◌, ◌≢◌, sym, ◌∙◌, inl, inr, ◌==◌, nat_eq, String, string_eq, length, if◌then◌else◌,
  Bool-cases, Option-cases, none, some, arith,
}
use tbore.Base.Int.{increment, wrap64-InRange64}
use tbore.Base.GoMap.{lookup}
use tbore.Auth.Record.{AuthFailureRecord, zero_record}
use tbore.Auth.Lru.{LruCache}
use tbore.Auth.Lru
use tbore.Auth.Lru.Invariant.{IsValid, get-IsValid, put-IsValid, remove-IsValid}
use tbore.Auth.Lru.View.{view, get-view}
use tbore.Auth.Lru.Reads.{lookup-get, lookup-put, lookup-remove}
use tbore.Auth.Store.{Bucket, Json, IsRepresentable, IsReliable}
use tbore.Auth.Blocker.{
  AuthBlocker, stored, get_record, put_record, fail_again, record_failure, delete_record,
  reset_failure,
}
use mathlib.Core.Option

-- Every record in the cache is the one that the database holds.
abbrev pub Agrees : (B : Bucket) → Json → B.Db → LruCache AuthFailureRecord → Type 0
Agrees B J d l =
    (j : String) (r : AuthFailureRecord) → lookup j (view l) ≡ some r → stored B J d j ≡ some r

module _ (B : Bucket) (J : Json) where
  pub record IsCoherent (b : AuthBlocker B) (d : B.Db) : Type 0 where
    pub opened : b.db ≡ some d
    pub valid : IsValid b.lru
    pub agrees : Agrees B J d b.lru

module _ (B : Bucket) (J : Json) where
  -- A `put` of what the new database holds, where all else is held as before.
  pub Agrees-put :
      (d d' : B.Db) (ip : String) (rec : AuthFailureRecord) (l : LruCache AuthFailureRecord)
      → IsValid l
      → Agrees B J d l
      → ((j : String) (r : AuthFailureRecord)
          → j ≢ ip
          → stored B J d j ≡ some r
          → stored B J d' j ≡ some r)
      → stored B J d' ip ≡ some rec
      → Agrees B J d' (Lru.put ip rec l)
  Agrees-put d d' ip rec l v agrees others here j r h = elim (lookup-put l v ip rec j r h) [
    | inl (same, new) ↦ rw (same, new) here
    | inr (other, old) ↦ others j r other (agrees j r old)
  ]

module _ {B : Bucket} {J : Json} where
  -- Reading a record gives what the database holds, and changes only the cache.
  pub get_record_lem :
      (b : AuthBlocker B) (d : B.Db) (ip : String)
      → IsCoherent B J b d
      → (l : LruCache AuthFailureRecord) × (get_record J ip b
          ≡ (record b { lru = l }, stored B J d ip))
        × IsValid l
        × Agrees B J d l
  unfolding get_record
  get_record_lem b d ip c =
      let read = get-view ip b.lru c.valid in
      let l = (Lru.get ip b.lru).0 in
      let valid = get-IsValid ip b.lru c.valid in
      let agrees : Agrees B J d l =
        λ j r h. c.agrees j r (sym (lookup-get b.lru c.valid ip j) ∙ h) in
      elim (Option-cases (lookup ip (view b.lru))) [
        | inr (r, hit) ↦ (l, rw (read.0, hit, c.agrees ip r hit, get_record), valid, agrees)
        | inl miss ↦ elim (Option-cases (stored B J d ip)) [
          | inl absent ↦ (l, ground (arith, read.0), valid, agrees)
          | inr (r, present) ↦ (
            Lru.put ip r l,
            ground (arith, read.0),
            put-IsValid ip r l valid,
            Agrees-put B J d d ip r l valid agrees (λ j q _ h. h) present,
          )
        ]
      ]

module _ {B : Bucket} {J : Json} {limit : ℕ} (ok : IsReliable B J limit) where
  -- Every record that the database holds can be written again.
  pub stored-IsRepresentable :
      (d : B.Db) (ip : String) (r : AuthFailureRecord)
      → stored B J d ip ≡ some r
      → IsRepresentable limit r
  unfolding stored
  stored-IsRepresentable d ip r h =
      ok.json.unmarshal-IsRepresentable (B.get d ip) r
        (elim (Bool-cases (length (B.get d ip) == 0)) [
          | inl empty ↦ absurd (ground arith)
          | inr some_bytes ↦ ground arith
        ])

  pub put_record_lem :
      (b : AuthBlocker B) (d : B.Db) (ip : String) (rec : AuthFailureRecord)
      → b.db ≡ some d
      → IsRepresentable limit rec
      → (d' : B.Db) × (put_record J ip rec b ≡ record b { db = some d' })
        × ((j : String) → stored B J d' j ≡ (if j == ip then some rec else stored B J d j))
  unfolding put_record stored
  put_record_lem b d ip rec opened fits =
      let (bytes, encoded, decoded, nonempty) = ok.json.unmarshal-marshal rec fits in
      let (d', committed) = ok.commits.put d ip bytes in
      (d', ground arith, λ j. ground (arith, ok.bucket.get-put d d' ip j bytes committed))

  delete_record_lem :
      (b : AuthBlocker B) (d : B.Db) (ip : String)
      → b.db ≡ some d
      → (d' : B.Db) × (delete_record ip b ≡ record b { db = some d' })
        × ((j : String) → stored B J d' j ≡ (if j == ip then none else stored B J d j))
  unfolding delete_record stored
  delete_record_lem b d ip opened =
      let (d', committed) = ok.commits.delete d ip in
      (d', ground arith, λ j. ground (arith, ok.bucket.get-delete d d' ip j committed))

  pub fail_again-IsRepresentable :
      (max_failures block_dur now : ℕ) (rec : AuthFailureRecord)
      → now + block_dur < limit
      → rec.blocked_until < limit
      → IsRepresentable limit (fail_again max_failures block_dur now rec)
  unfolding fail_again increment
  fail_again-IsRepresentable max_failures block_dur now rec h k = record {
    count = wrap64-InRange64 _;
    last = omega arith;
    until = ground arith;
  }

  known_until-lt :
      (d : B.Db) (ip : String)
      → 0 < limit
      → (Option.get_or (stored B J d ip) zero_record).blocked_until < limit
  known_until-lt d ip h = elim (Option-cases (stored B J d ip)) [
    | inl absent ↦ rw absent h
    | inr (r, present) ↦ rw present (stored-IsRepresentable d ip r present).until
  ]

  -- One more failure is written to the database and to the cache, and concerns no other address.
  pub record_failure_lem :
      (b : AuthBlocker B) (d : B.Db) (ip : String) (now : ℕ)
      → IsCoherent B J b d
      → now + b.block_dur < limit
      → (d' : B.Db) × (l : LruCache AuthFailureRecord) × (record_failure J ip now b
          ≡ record b { db = some d'; lru = l })
        × IsValid l
        × Agrees B J d' l
        × ((j : String)
            → stored B J d' j ≡ (
                if j == ip
                then some (
                    fail_again b.max_failures b.block_dur now
                      (Option.get_or (stored B J d ip) zero_record))
                else stored B J d j))
  unfolding record_failure
  record_failure_lem b d ip now c h =
      let (l, read, valid, agrees) = get_record_lem b d ip c in
      let old = Option.get_or (stored B J d ip) zero_record in
      let limit_pos : 0 < limit = omega arith in
      let rec = fail_again b.max_failures b.block_dur now old in
      let fits : IsRepresentable limit rec =
        fail_again-IsRepresentable b.max_failures b.block_dur now old h
          (known_until-lt d ip limit_pos) in
      let (d', written, known) = put_record_lem (record b { lru = l }) d ip rec c.opened fits in
      (
        d',
        Lru.put ip rec l,
        rw (read, record_failure, written),
        put-IsValid ip rec l valid,
        Agrees-put B J d d' ip rec l valid agrees (λ j r other k. ground (arith, known j))
            (ground (arith, known ip)),
        known,
      )

  -- A reset takes the address out of both.
  pub reset_failure_lem :
      (b : AuthBlocker B) (d : B.Db) (ip : String)
      → IsCoherent B J b d
      → (d' : B.Db) × (l : LruCache AuthFailureRecord) × (reset_failure ip b
          ≡ record b { db = some d'; lru = l })
        × IsValid l
        × Agrees B J d' l
        × ((j : String) → stored B J d' j ≡ (if j == ip then none else stored B J d j))
  unfolding reset_failure
  reset_failure_lem b d ip c =
      let (d', deleted, known) = delete_record_lem b d ip c.opened in
      (
        d',
        Lru.remove ip b.lru,
        rw (deleted, reset_failure),
        remove-IsValid ip b.lru c.valid,
        λ j r h. ground (arith, lookup-remove b.lru c.valid ip j, c.agrees j r, known j),
        known,
      )
