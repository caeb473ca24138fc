-- ===== src/Auth/Blocker.antt =====
-- pkg/auth/blocker.go, `AuthBlocker`: failed logins by IP address, in an LRU cache over a database.
-- The time that a method reads from the clock is its argument `now`.
pub mod Spec
pub mod Coherence
pub mod Cleaning
pub mod Refinement
pub mod Streak
pub mod Overlap
pub mod Lifecycle
use tbore.Base.{
  ℕ, ◌+◌, ◌-◌, ◌*◌, ◌==◌, nat_eq, String, string_eq, length, if◌then◌else◌, leb, Bool, true, false,
  ◌||◌, List, [], ◌∷◌, ◌++◌, Option, none, some,
}
use tbore.Base.Int.{ℤ, pos, pos_part, leb_ℤ, increment}
use tbore.Base.GoMap.{GoMap}
use tbore.Auth.Record.{AuthFailureRecord, zero_record, is_zero, before}
use tbore.Auth.Record
use tbore.Auth.Lru.{LruCache, new_lru_cache}
use tbore.Auth.Lru
use tbore.Auth.Store.{Bucket, Json}
use mathlib.Core.Option

abbrev pub second : ℕ
second = 1_000_000_000

abbrev pub default_max_failures : ℕ
default_max_failures = 3

abbrev pub default_block_duration : ℕ
default_block_duration = 600 * second

abbrev pub default_clean_interval : ℕ
default_clean_interval = 60 * second

abbrev pub default_record_ttl : ℕ
default_record_ttl = 86_400 * second

pub record AuthBlockerConfig : Type 0 where
  pub db_path : String
  pub max_failures : ℤ
  pub block_duration : ℤ
  pub lru_size : ℤ
  pub clean_interval : ℤ
  pub record_ttl : ℤ

-- `if v <= 0 { v = default }`, so that what is left is a positive number.
unfoldable pub or_default : ℤ → ℕ → ℕ
or_default v default = if leb_ℤ v (pos 0) then default else pos_part v

-- The errors of `NewAuthBlocker`.
pub data OpenError : Type 0 where
  create_directory open_bbolt create_bucket : OpenError

-- What `NewAuthBlocker` asks of the file system and of bbolt: `filepath.Dir`, `os.MkdirAll`,
-- `bbolt.Open` and `CreateBucketIfNotExists`.
pub record Disk (Db : Type 0) : Type 0 where
  pub dir : String → String
  pub mkdir_all : String → Bool
  pub open_file : String → Option Db
  pub make_bucket : Db → Option Db

pub data Result {ℓ} (A : Type ℓ) : Type ℓ where
  ok : A → Result A
  err : OpenError → Result A

module _ (B : Bucket) where
  pub record AuthBlocker : Type 0 where
    pub db : Option B.Db
    pub lru : LruCache AuthFailureRecord
    pub max_failures : ℕ
    pub block_dur : ℕ
    pub record_ttl : ℕ
    pub clean_inter : ℕ

  -- The part of `NewAuthBlocker` that opens the database.
  unfoldable pub open_db : Disk B.Db → String → Result (Option B.Db)
  open_db disk path =
      if path == ""
      then ok none
      else (let dir = disk.dir path in
          if (dir == "" || dir == ".") || disk.mkdir_all dir
          then elim (disk.open_file path) [
            | none ↦ err open_bbolt
            | some d ↦ elim (disk.make_bucket d) [
              | none ↦ err create_bucket
              | some d' ↦ ok (some d')
            ]
          ]
          else err create_directory)

  unfoldable pub new_auth_blocker : Disk B.Db → AuthBlockerConfig → Result AuthBlocker
  unfolding open_db or_default
  new_auth_blocker disk cfg = elim (open_db disk cfg.db_path) [
    | err e ↦ err e
    | ok db ↦ ok (record {
      db = db;
      lru = new_lru_cache (pos (or_default cfg.lru_size Lru.default_lru_size));
      max_failures = or_default cfg.max_failures default_max_failures;
      block_dur = or_default cfg.block_duration default_block_duration;
      record_ttl = or_default cfg.record_ttl default_record_ttl;
      clean_inter = or_default cfg.clean_interval default_clean_interval;
    })
  ]

-- The bytes of a record, if there are any and they parse.
unfoldable pub parse : Json → List ℕ → Option AuthFailureRecord
parse json bytes = if length bytes == 0 then none else json.unmarshal bytes

-- What the database holds of an address.
unfoldable pub stored : (B : Bucket) → Json → B.Db → String → Option AuthFailureRecord
unfolding parse
stored B json d ip = parse json (B.get d ip)

-- The record after one more failure. Both branches of the source's inner `if` do the same.
unfoldable pub fail_again : ℕ → ℕ → ℕ → AuthFailureRecord → AuthFailureRecord
fail_again max_failures block_dur now rec =
    let count = increment rec.fail_count in
    record {
      fail_count = count;
      last_fail_at = now;
      blocked_until = if leb_ℤ (pos max_failures) count then now + block_dur else rec.blocked_until;
    }

module _ {B : Bucket} (J : Json) where
  unfoldable pub get_record : String → AuthBlocker B → AuthBlocker B × Option AuthFailureRecord
  get_record ip b =
      let (lru, cached) = Lru.get ip b.lru in
      elim cached [
        | some rec ↦ (record b { lru = lru }, some rec)
        | none ↦ elim b.db [
          | none ↦ (record b { lru = lru }, none)
          | some d ↦ elim (stored B J d ip) [
            | none ↦ (record b { lru = lru }, none)
            | some rec ↦ (record b { lru = Lru.put ip rec lru }, some rec)
          ]
        ]
      ]

  unfoldable pub put_record : String → AuthFailureRecord → AuthBlocker B → AuthBlocker B
  put_record ip rec b = elim b.db [
    | none ↦ b
    | some d ↦ elim (J.marshal rec) [
      | none ↦ b
      | some bytes ↦ elim (B.put d ip bytes) [ none ↦ b | some d' ↦ record b { db = some d' } ]
    ]
  ]

  unfoldable pub is_blocked : String → ℕ → AuthBlocker B → AuthBlocker B × Bool
  unfolding get_record
  is_blocked ip now b =
      let (b', found) = get_record ip b in
      (b', elim found [ none ↦ false | some rec ↦ Record.is_blocked rec now ])

  unfoldable pub record_failure : String → ℕ → AuthBlocker B → AuthBlocker B
  unfolding get_record put_record fail_again
  record_failure ip now b =
      let (b', found) = get_record ip b in
      let rec = fail_again b'.max_failures b'.block_dur now (Option.get_or found zero_record) in
      let b'' = put_record ip rec b' in record b'' { lru = Lru.put ip rec b''.lru }

module _ {B : Bucket} where
  unfoldable pub delete_record : String → AuthBlocker B → AuthBlocker B
  delete_record ip b = elim b.db [
    | none ↦ b
    | some d ↦ elim (B.delete d ip) [ none ↦ b | some d' ↦ record b { db = some d' } ]
  ]

  unfoldable pub reset_failure : String → AuthBlocker B → AuthBlocker B
  unfolding delete_record
  reset_failure ip b = let b' = delete_record ip b in record b' { lru = Lru.remove ip b'.lru }

-- The loop of `iterateAll` over the pairs that the cursor gives; `fn` answers whether to go on.
unfoldable pub visit {ℓ} :
    {S : Type ℓ}
    → Json
    → (S → String → AuthFailureRecord → S × Bool)
    → GoMap String (List ℕ)
    → S
    → S
unfolding parse
visit json fn [] s = s
visit json fn ((k, v) ∷ l) s = elim (parse json v) [
  | none ↦ visit json fn l s
  | some rec ↦ let (s', go) = fn s k rec in elim go [ true ↦ visit json fn l s' | false ↦ s' ]
]

-- The callback of `cleanExpired`.
unfoldable pub collect_expired :
    ℕ → ℕ → List String → String → AuthFailureRecord → List String × Bool
collect_expired now cutoff ips ip rec =
    if Record.is_blocked rec now
    then (ips, true)
    else if is_zero rec.last_fail_at || before rec.last_fail_at cutoff
    then (ips ++ ip ∷ [], true)
    else (ips, true)

-- The callback of `BlockedCount`.
unfoldable pub count_blocked : ℕ → ℕ → String → AuthFailureRecord → ℕ × Bool
count_blocked now n ip rec = (if Record.is_blocked rec now then n + 1 else n, true)

module _ {B : Bucket} (J : Json) where
  unfoldable pub iterate_all {ℓ} :
      {S : Type ℓ} → (S → String → AuthFailureRecord → S × Bool) → AuthBlocker B → S → S
  unfolding visit
  iterate_all fn b s = elim b.db [ none ↦ s | some d ↦ visit J fn (B.cursor d) s ]

  unfoldable pub blocked_count : ℕ → AuthBlocker B → ℕ
  unfolding iterate_all
  blocked_count now b = iterate_all (count_blocked now) b 0

  -- The addresses that `cleanExpired` collects. A cutoff before year 1 is the zero time here, and
  -- no time lies before either.
  unfoldable pub to_delete : ℕ → AuthBlocker B → List String
  unfolding iterate_all
  to_delete now b = iterate_all (collect_expired now (now - b.record_ttl)) b []

-- `b.deleteRecord(ip)` and `b.lru.remove(ip)` for each address
unfoldable pub delete_all : {B : Bucket} → List String → AuthBlocker B → AuthBlocker B
unfolding reset_failure
delete_all [] b = b
delete_all (ip ∷ ips) b = delete_all ips (reset_failure ip b)

unfoldable pub clean_expired : {B : Bucket} → Json → ℕ → AuthBlocker B → AuthBlocker B
unfolding to_delete delete_all
clean_expired json now b = elim b.db [ none ↦ b | some _ ↦ delete_all (to_delete json now b) b ]
