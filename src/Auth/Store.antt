-- ===== src/Auth/Store.antt =====
-- What pkg/auth/blocker.go uses of go.etcd.io/bbolt and of encoding/json: one bucket of records by
-- IP address, and the encoding of a record. Both are parameters of the model.
use tbore.Base.{ℕ, ◌<◌, ◌≡◌, String, string_eq, ◌==◌, length, if◌then◌else◌, List, [], Option, some}
use tbore.Base.Int.{InRange64}
use tbore.Base.GoMap.{GoMap, lookup, NodupKeys}
use tbore.Auth.Record.{AuthFailureRecord}
use mathlib.Core.Option

-- A database with the bucket `auth_failures`. `get` answers a missing key with no bytes. A write is
-- one transaction, and `none` stands for an error, after which the database is as it was.
pub record Bucket : Type 1 where
  pub Db : Type 0
  pub get : Db → String → List ℕ
  pub put : Db → String → List ℕ → Option Db
  pub delete : Db → String → Option Db
  pub cursor : Db → GoMap String (List ℕ)

pub record IsBucket (B : Bucket) : Type 0 where
  pub get-put :
      (d d' : B.Db) (k j : String) (v : List ℕ)
      → B.put d k v ≡ some d'
      → B.get d' j ≡ (if j == k then v else B.get d j)
  pub get-delete :
      (d d' : B.Db) (k j : String)
      → B.delete d k ≡ some d'
      → B.get d' j ≡ (if j == k then [] else B.get d j)
  pub get-cursor : (d : B.Db) (k : String) → B.get d k ≡ Option.get_or (lookup k (B.cursor d)) []
  pub cursor-NodupKeys : (d : B.Db) → NodupKeys (B.cursor d)

-- Every transaction commits.
pub record Commits (B : Bucket) : Type 0 where
  pub put : (d : B.Db) (k : String) (v : List ℕ) → (d' : B.Db) × (B.put d k v ≡ some d')
  pub delete : (d : B.Db) (k : String) → (d' : B.Db) × (B.delete d k ≡ some d')

pub record Json : Type 0 where
  pub marshal : AuthFailureRecord → Option (List ℕ)
  pub unmarshal : List ℕ → Option AuthFailureRecord

-- What `json.Marshal` accepts: a 64-bit count, and times before the year `limit`, which is 10000.
pub record IsRepresentable (limit : ℕ) (r : AuthFailureRecord) : Type 0 where
  pub count : InRange64 r.fail_count
  pub last : r.last_fail_at < limit
  pub until : r.blocked_until < limit

-- The JSON of a representable record reads back as that record, and only such records are read.
pub record IsJson (J : Json) (limit : ℕ) : Type 0 where
  pub unmarshal-marshal :
      (r : AuthFailureRecord)
      → IsRepresentable limit r
      → (bytes : List ℕ) × (J.marshal r ≡ some bytes)
        × (J.unmarshal bytes ≡ some r)
        × (0 < length bytes)
  pub unmarshal-IsRepresentable :
      (bytes : List ℕ) (r : AuthFailureRecord)
      → J.unmarshal bytes ≡ some r
      → IsRepresentable limit r

-- A database that works, with a faithful encoding.
pub record IsReliable (B : Bucket) (J : Json) (limit : ℕ) : Type 0 where
  pub bucket : IsBucket B
  pub commits : Commits B
  pub json : IsJson J limit
