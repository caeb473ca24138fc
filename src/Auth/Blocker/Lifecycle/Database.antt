-- ===== src/Auth/Blocker/Lifecycle/Database.antt =====
-- No method opens or closes the database of a blocker.
use tbore.Base.{
  ℕ, ◌≡◌, refl, ap, ◌∙◌, nat_eq, String, Bool, true, false, List, [], ◌∷◌, none, some, arith,
  Option-cases, inl, inr, ◌⊎◌,
}
use tbore.Auth.Store.{Bucket, Json}
use tbore.Auth.Record.{AuthFailureRecord}
use tbore.Auth.Lru
use tbore.Auth.Blocker.{
  to_delete, stored, AuthBlocker, get_record, put_record, is_blocked, record_failure, delete_record,
  reset_failure, delete_all, clean_expired,
}
use tbore.Auth.Blocker.Lifecycle.{closable}

-- No database, or one that is open.
unfoldable pub is_open : (B : Bucket) → AuthBlocker (closable B) → Bool
unfolding closable
is_open B b = elim b.db [ none ↦ true | some d ↦ elim d [ none ↦ false | some _ ↦ true ] ]

-- No database, or one that is closed.
unfoldable pub is_shut : (B : Bucket) → AuthBlocker (closable B) → Bool
unfolding closable
is_shut B b = elim b.db [ none ↦ true | some d ↦ elim d [ none ↦ true | some _ ↦ false ] ]

-- No database, one that is closed, or one that is open.
abbrev Database : (B : Bucket) → AuthBlocker (closable B) → Type 0
unfolding closable
Database B b = (b.db ≡ none) ⊎ ((b.db ≡ some none) ⊎ ((x : B.Db) × (b.db ≡ some (some x))))

module _ (B : Bucket) (J : Json) where
  database : (b : AuthBlocker (closable B)) → Database B b
  unfolding closable
  database b = elim (Option-cases b.db) [
    | inl no_db ↦ inl no_db
    | inr (d, there) ↦ elim (Option-cases d) [
      | inl shut ↦ inr (inl (there ∙ ap some shut))
      | inr (x, it) ↦ inr (inr (x, there ∙ ap some it))
    ]
  ]

  same_db : (b b' : AuthBlocker (closable B)) → b.db ≡ b'.db → is_open B b ≡ is_open B b'
  unfolding is_open
  same_db b b' same = rw same refl

  delete_record-open :
      (ip : String) (b : AuthBlocker (closable B)) → is_open B (delete_record ip b) ≡ is_open B b
  unfolding delete_record is_open closable
  delete_record-open ip b = elim (database b) [
    | inl no_db ↦ ground (arith, no_db)
    | inr (inl shut) ↦ ground (arith, shut)
    | inr (inr (x, there)) ↦ elim (Option-cases (B.delete x ip)) [
      | inl failed ↦ ground (arith, there, failed)
      | inr (x', gone) ↦ ground (arith, there, gone)
    ]
  ]

  put_record-open :
      (ip : String) (rec : AuthFailureRecord) (b : AuthBlocker (closable B))
      → is_open B (put_record J ip rec b) ≡ is_open B b
  unfolding put_record is_open closable
  put_record-open ip rec b = elim (Option-cases (J.marshal rec)) [
    | inl wrong ↦ ground (arith, wrong)
    | inr (bytes, fine) ↦ elim (database b) [
      | inl no_db ↦ ground (arith, no_db)
      | inr (inl shut) ↦ ground (arith, shut, fine)
      | inr (inr (x, there)) ↦ elim (Option-cases (B.put x ip bytes)) [
        | inl failed ↦ ground (arith, there, fine, failed)
        | inr (x', done) ↦ ground (arith, there, fine, done)
      ]
    ]
  ]

  get_record-db : (ip : String) (b : AuthBlocker (closable B)) → (get_record J ip b).0.db ≡ b.db
  unfolding get_record
  get_record-db ip b = elim (Option-cases (Lru.get ip b.lru).1) [
    | inr (rec, cached) ↦ ground (arith, cached)
    | inl missing ↦ elim (Option-cases b.db) [
      | inl no_db ↦ rw (missing, get_record) (ground (arith, no_db))
      | inr (d, there) ↦ elim (Option-cases (stored (closable B) J d ip)) [
        | inl unknown ↦ rw (missing, get_record) (ground (arith, there, unknown))
        | inr (rec, known) ↦ rw (missing, get_record) (ground (arith, there, known))
      ]
    ]
  ]

  pub reset_failure-open :
      (ip : String) (b : AuthBlocker (closable B)) → is_open B (reset_failure ip b) ≡ is_open B b
  unfolding reset_failure
  reset_failure-open ip b =
      same_db (reset_failure ip b) (delete_record ip b) refl ∙ delete_record-open ip b

  delete_all-open :
      (ips : List String) (b : AuthBlocker (closable B))
      → is_open B (delete_all ips b) ≡ is_open B b
  unfolding delete_all
  delete_all-open [] b = refl
  delete_all-open (ip ∷ ips) b = delete_all-open ips (reset_failure ip b) ∙ reset_failure-open ip b

  pub clean_expired-open :
      (now : ℕ) (b : AuthBlocker (closable B)) → is_open B (clean_expired J now b) ≡ is_open B b
  unfolding clean_expired
  clean_expired-open now b = elim (Option-cases b.db) [
    | inl no_db ↦ ap (is_open B) (ground (arith, no_db))
    | inr (d, there) ↦
        let ips = to_delete J now b in
        let cleaned : clean_expired J now b ≡ delete_all ips b = ground (arith, there) in
        ap (is_open B) cleaned ∙ delete_all-open ips b
  ]

  pub record_failure-open :
      (ip : String) (now : ℕ) (b : AuthBlocker (closable B))
      → is_open B (record_failure J ip now b) ≡ is_open B b
  unfolding record_failure
  record_failure-open ip now b =
      same_db _ _ refl
      ∙ put_record-open ip _ (get_record J ip b).0
      ∙ same_db _ b (get_record-db ip b)

  pub is_blocked-open :
      (ip : String) (now : ℕ) (b : AuthBlocker (closable B))
      → is_open B (is_blocked J ip now b).0 ≡ is_open B b
  unfolding is_blocked
  is_blocked-open ip now b = same_db _ b (get_record-db ip b)
