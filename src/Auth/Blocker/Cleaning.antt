-- ===== src/Auth/Blocker/Cleaning.antt =====
-- The two passes over the database: `cleanExpired` and `BlockedCount`.
use tbore.Base.{
  ℕ, ◌+◌, ◌-◌, ◌≡◌, refl, ◌∙◌, ◌==◌, nat_eq, String, string_eq, length, if◌then◌else◌, Bool, false,
  ◌||◌, List, [], ◌∷◌, ◌++◌, Option, none, some, arith,
}
use mathlib.Core.List.{append-nil, append_assoc}
use tbore.Base.GoMap.{GoMap, lookup, NodupKeys}
use tbore.Auth.Record.{AuthFailureRecord}
use tbore.Auth.Record
use tbore.Auth.Lru.{LruCache}
use tbore.Auth.Lru.Invariant.{IsValid}
use tbore.Auth.Store.{Bucket, Json, IsReliable}
use tbore.Auth.Blocker.{
  AuthBlocker, parse, stored, visit, collect_expired, count_blocked, to_delete, blocked_count,
  delete_all, clean_expired,
}
use tbore.Auth.Blocker.Spec.{is_expired, keep_fresh}
use tbore.Auth.Blocker.Coherence.{Agrees, IsCoherent, reset_failure_lem}

abbrev pub contains : String → List String → Bool
contains k [] = false
contains k (x ∷ xs) = k == x || contains k xs

-- No address stands twice.
abbrev pub IsDistinct : List String → Type 0
IsDistinct [] = Unit
IsDistinct (x ∷ xs) = (contains x xs ≡ false) × IsDistinct xs

module _ (J : Json) (ttl now : ℕ) where
  -- The addresses whose record is expired, in the order of the cursor.
  expired_keys : GoMap String (List ℕ) → List String
  expired_keys [] = []
  expired_keys ((k, v) ∷ l) =
      let rest = expired_keys l in
      elim (parse J v) [
        | none ↦ rest
        | some rec ↦ if is_expired ttl now rec then k ∷ rest else rest
      ]

  visit-expired_keys :
      (l : GoMap String (List ℕ)) (ips : List String)
      → visit J (collect_expired now (now - ttl)) l ips ≡ ips ++ expired_keys l
  unfolding visit collect_expired expired_keys is_expired
  visit-expired_keys [] ips = simp append-nil
  visit-expired_keys ((k, v) ∷ l) ips = ground (
    arith,
    visit-expired_keys l ips,
    visit-expired_keys l (ips ++ k ∷ []),
    append_assoc ips (k ∷ []) (expired_keys l),
  )

  held : Option (List ℕ) → Bool
  held found = elim found [
    | none ↦ false
    | some v ↦ elim (parse J v) [ none ↦ false | some rec ↦ is_expired ttl now rec ]
  ]

  contains-expired_keys :
      (k : String) (l : GoMap String (List ℕ))
      → NodupKeys l
      → contains k (expired_keys l) ≡ held (lookup k l)
  unfolding expired_keys lookup held
  contains-expired_keys k [] u = refl
  contains-expired_keys k ((j, v) ∷ l) u = ground (arith, contains-expired_keys k l u.1)

module _ (J : Json) (now : ℕ) where
  -- The addresses whose record is blocked, in the order of the cursor.
  blocked_keys : GoMap String (List ℕ) → List String
  blocked_keys [] = []
  blocked_keys ((k, v) ∷ l) =
      let rest = blocked_keys l in
      elim (parse J v) [
        | none ↦ rest
        | some rec ↦ if Record.is_blocked rec now then k ∷ rest else rest
      ]

  visit-blocked_keys :
      (l : GoMap String (List ℕ)) (n : ℕ)
      → visit J (count_blocked now) l n ≡ n + length (blocked_keys l)
  unfolding visit count_blocked blocked_keys
  visit-blocked_keys [] n = omega arith
  visit-blocked_keys ((k, v) ∷ l) n =
      ground (arith, visit-blocked_keys l n, visit-blocked_keys l (n + 1))

  blocked : Option (List ℕ) → Bool
  blocked found = elim found [
    | none ↦ false
    | some v ↦ elim (parse J v) [ none ↦ false | some rec ↦ Record.is_blocked rec now ]
  ]

  contains-blocked_keys :
      (k : String) (l : GoMap String (List ℕ))
      → NodupKeys l
      → contains k (blocked_keys l) ≡ blocked (lookup k l)
  unfolding blocked_keys lookup blocked
  contains-blocked_keys k [] u = refl
  contains-blocked_keys k ((j, v) ∷ l) u = ground (arith, contains-blocked_keys k l u.1)

  blocked_keys-IsDistinct : (l : GoMap String (List ℕ)) → NodupKeys l → IsDistinct (blocked_keys l)
  unfolding blocked_keys blocked
  blocked_keys-IsDistinct [] u = tt
  blocked_keys-IsDistinct ((j, v) ∷ l) u =
      ground (arith, contains-blocked_keys j l u.1, blocked_keys-IsDistinct l u.1)

module _ {B : Bucket} {J : Json} {limit : ℕ} (ok : IsReliable B J limit) where
  stored-cursor :
      (d : B.Db) (k : String)
      → stored B J d k ≡ (elim (lookup k (B.cursor d)) [ none ↦ none | some v ↦ parse J v ])
  unfolding stored parse
  stored-cursor d k = ground (arith, ok.bucket.get-cursor d k)

  delete_all_lem :
      (ips : List String) (b : AuthBlocker B) (d : B.Db)
      → IsCoherent B J b d
      → (d' : B.Db) × (l : LruCache AuthFailureRecord) × (delete_all ips b
          ≡ record b { db = some d'; lru = l })
        × IsValid l
        × Agrees B J d' l
        × ((j : String) → stored B J d' j ≡ (if contains j ips then none else stored B J d j))
  unfolding delete_all
  delete_all_lem [] b d c = (d, b.lru, ground (arith, c.opened), c.valid, c.agrees, λ j. refl)
  delete_all_lem (ip ∷ ips) b d c =
      let (d₁, l₁, reset, valid₁, agrees₁, known₁) = reset_failure_lem ok b d ip c in
      let c₁ : IsCoherent B J (record b { db = some d₁; lru = l₁ }) d₁ = record {
        opened = refl;
        valid = valid₁;
        agrees = agrees₁;
      } in
      let (d₂, l₂, rest, valid₂, agrees₂, known₂) = delete_all_lem ips _ d₁ c₁ in
      (d₂, l₂, rw reset rest, valid₂, agrees₂, λ j. ground (arith, known₁ j, known₂ j))

  collected :
      (b : AuthBlocker B) (d : B.Db) (now : ℕ)
      → b.db ≡ some d
      → to_delete J now b ≡ expired_keys J b.record_ttl now (B.cursor d)
  unfolding to_delete
  collected b d now opened =
      rw (opened, to_delete) (visit-expired_keys J b.record_ttl now (B.cursor d) [])

  clean_expired-open :
      (b : AuthBlocker B) (d : B.Db) (now : ℕ)
      → b.db ≡ some d
      → clean_expired J now b ≡ delete_all (to_delete J now b) b
  unfolding clean_expired
  clean_expired-open b d now opened = ground (arith, opened)

  -- Exactly the expired records go.
  pub clean_expired_lem :
      (b : AuthBlocker B) (d : B.Db) (now : ℕ)
      → IsCoherent B J b d
      → (d' : B.Db) × (l : LruCache AuthFailureRecord) × (clean_expired J now b
          ≡ record b { db = some d'; lru = l })
        × IsValid l
        × Agrees B J d' l
        × ((j : String) → stored B J d' j ≡ keep_fresh b.record_ttl now (stored B J d j))
  unfolding keep_fresh held
  clean_expired_lem b d now c =
      let ips = expired_keys J b.record_ttl now (B.cursor d) in
      let found : to_delete J now b ≡ ips = collected b d now c.opened in
      let (d', l, deleted, valid, agrees, known) = delete_all_lem ips b d c in
      (
        d',
        l,
        clean_expired-open b d now c.opened ∙ rw found deleted,
        valid,
        agrees,
        λ j. ground (
          arith,
          known j,
          stored-cursor d j,
          contains-expired_keys J b.record_ttl now j (B.cursor d) (ok.bucket.cursor-NodupKeys d),
        ),
      )

  -- Over a reliable database the count is the length of a list without repetitions that contains
  -- exactly the addresses whose stored record is blocked at `now`.
  blocked_count_lem :
      (b : AuthBlocker B) (d : B.Db) (now : ℕ)
      → b.db ≡ some d
      → (ips : List String) × (blocked_count J now b ≡ length ips)
        × IsDistinct ips
        × ((ip : String)
            → contains ip ips
              ≡ (elim (stored B J d ip) [ none ↦ false | some rec ↦ Record.is_blocked rec now ]))
  unfolding blocked_count blocked
  blocked_count_lem b d now opened =
      let u = ok.bucket.cursor-NodupKeys d in
      (
        blocked_keys J now (B.cursor d),
        rw (opened, blocked_count) (visit-blocked_keys J now (B.cursor d) 0 ∙ omega arith),
        blocked_keys-IsDistinct J now (B.cursor d) u,
        λ ip. ground (arith, contains-blocked_keys J now ip (B.cursor d) u, stored-cursor d ip),
      )
