-- ===== src/Server/Start/Protection.antt =====
-- The password protection of a server that starts.
use tbore.Base.{
  ◌≤◌, ℕ, ◌*◌, ◌<◌, ◌^◌, ◌==◌, nat_eq, string_eq, String, ◌≡◌, ◌≢◌, refl, ap, ◌∙◌, false, List,
  Option, none, some, arith, ◌⊎◌, inl, inr, Option-cases, Bool-cases,
}
use mathlib.Core.Bool.{false≢true}
use tbore.Base.Int.{ℤ, pos, negsuc, pos_part, ◌<ℤ◌, wrap64}
use tbore.Config.{ServerConfig, validate_server}
use tbore.Config.Defaults.{IsGuarded, IsAccepted, validate_server_iff}
use tbore.Auth.Store.{Bucket}
use tbore.Auth.Blocker.{
  AuthBlocker, AuthBlockerConfig, OpenError, Disk, Result, ok, err, new_auth_blocker, open_db,
  or_default, second,
}
use tbore.Auth.Blocker.Spec.{Settings}
use tbore.Auth.Blocker.Refinement.{settings}
use tbore.Auth.Authenticator.{Crypto}
use tbore.Auth.Keys.{KeyTools, Files, load_or_generate_signer}
use tbore.Server.Start.{
  Server, started, default_auth_db_path, in_seconds, blocker_config, add_blocker, fresh_server,
  new_server,
}

or_default_pos : (v : ℤ) (d : ℕ) → pos 0 <ℤ v → or_default v d ≡ pos_part v
unfolding or_default
or_default_pos v d h = ground arith

-- A positive number of seconds that an `int64` holds in nanoseconds.
in_seconds_lem :
    (n : ℤ) → pos 0 <ℤ n → second * pos_part n < 2 ^ 63 → in_seconds n ≡ pos (second * pos_part n)
unfolding wrap64
in_seconds_lem (pos n) h small = ground arith
in_seconds_lem (negsuc n) h small = absurd (omega arith)

-- The settings that an operator wrote down.
abbrev pub configured : ServerConfig → Settings
configured cfg = record {
  max_failures = pos_part cfg.auth_max_failures;
  block_dur = second * pos_part cfg.auth_block_duration;
  record_ttl = second * pos_part cfg.auth_record_ttl;
}

default_auth_db_path_set : default_auth_db_path ≢ ""
unfolding string_eq
default_auth_db_path_set p = false≢true (ap (λ s. s == "") p)

db_path_lem : (cfg : ServerConfig) → (blocker_config cfg).db_path ≢ ""
unfolding blocker_config
db_path_lem cfg empty = elim (string_eq.dec cfg.auth_block_db_path "") [
  | yes missing ↦ default_auth_db_path_set (ground (arith, empty, missing))
  | no given ↦ given (ground (arith, empty, given))
]

Result-cases :
    {A : Type 0} (r : Result A) → ((e : OpenError) × (r ≡ err e)) ⊎ ((x : A) × (r ≡ ok x))
Result-cases (err e) = inl (e, refl)
Result-cases (ok x) = inr (x, refl)

module _ {B : Bucket} (disk : Disk B.Db) (c : AuthBlockerConfig) (b : AuthBlocker B)
    (made : new_auth_blocker B disk c ≡ ok b) where
  opened_lem : c.db_path ≢ "" → (d : B.Db) × (b.db ≡ some d)
  unfolding new_auth_blocker open_db
  opened_lem h = elim (Option-cases b.db) [ inl gone ↦ absurd (ground arith) | inr found ↦ found ]

  chosen_lem :
      (b.max_failures ≡ or_default c.max_failures 3)
      × (b.block_dur ≡ or_default c.block_duration (600 * second))
      × (b.record_ttl ≡ or_default c.record_ttl (86_400 * second))
  unfolding new_auth_blocker
  chosen_lem = (ground arith, ground arith, ground arith)

duration_lem :
    (n : ℤ) (d : ℕ)
    → pos 0 <ℤ n
    → second * pos_part n < 2 ^ 63
    → or_default (in_seconds n) d ≡ second * pos_part n
duration_lem n d h small =
    ap (λ v. or_default v d) (in_seconds_lem n h small)
    ∙ or_default_pos (pos (second * pos_part n)) d (omega arith)

-- The settings of the blocker that `NewServer` opens.
settings_lem :
    {B : Bucket} (disk : Disk B.Db) (cfg : ServerConfig) (b : AuthBlocker B)
    → IsGuarded cfg
    → second * pos_part cfg.auth_block_duration < 2 ^ 63
    → second * pos_part cfg.auth_record_ttl < 2 ^ 63
    → new_auth_blocker B disk (blocker_config cfg) ≡ ok b
    → settings b ≡ configured cfg
unfolding blocker_config
settings_lem disk cfg b g block ttl made =
    let (failures, block_dur, record_ttl) = chosen_lem disk (blocker_config cfg) b made in
    λ i. record {
      max_failures = (failures ∙ or_default_pos cfg.auth_max_failures 3 g.failures) i;
      block_dur = (block_dur ∙ duration_lem cfg.auth_block_duration (600 * second) g.block block) i;
      record_ttl = (record_ttl ∙ duration_lem cfg.auth_record_ttl (86_400 * second) g.ttl ttl) i;
    }

module _ {B : Bucket} {K : KeyTools} (disk : Disk B.Db) (cfg : ServerConfig) where
  new_server_cases :
      (F : Files) (crypto : Crypto) (bytes : String → List ℕ) (key : Option K.Key) (now : ℕ)
      (files : F.Disk) (s : Server B K)
      → (new_server F crypto bytes disk key now cfg files).1 ≡ started s
      → (validate_server cfg ≡ none) × (s' : Server B K) × (add_blocker disk cfg s' ≡ started s)
  unfolding new_server
  new_server_cases F crypto bytes key now files s h = elim (Option-cases (validate_server cfg)) [
    | inr (e, bad) ↦ absurd (ground arith)
    | inl good ↦ elim (Option-cases (load_or_generate_signer K F cfg.host_key_path key files).1) [
      | inl refused ↦ absurd (ground arith)
      | inr (signer, made) ↦ (good, fresh_server crypto bytes now cfg signer, ground arith)
    ]
  ]

  add_blocker_cases :
      (s s' : Server B K)
      → cfg.auth_disabled ≡ false
      → add_blocker disk cfg s' ≡ started s
      → (b : AuthBlocker B) × (new_auth_blocker B disk (blocker_config cfg) ≡ ok b)
        × (s.blocker ≡ some b)
  unfolding add_blocker
  add_blocker_cases s s' on h = elim (Result-cases (new_auth_blocker B disk (blocker_config cfg))) [
    | inl (e, bad) ↦ absurd (ground arith)
    | inr (b, good) ↦ (b, good, ground arith)
  ]

  add_blocker-cfg : (s s' : Server B K) → add_blocker disk cfg s' ≡ started s → s.cfg ≡ s'.cfg
  unfolding add_blocker
  add_blocker-cfg s s' h = elim (Bool-cases cfg.auth_disabled) [
    | inl off ↦ ground (arith, off, h)
    | inr on ↦ elim (Result-cases (new_auth_blocker B disk (blocker_config cfg))) [
      | inl (e, bad) ↦ absurd (ground (arith, on, bad, h))
      | inr (b, good) ↦ ground (arith, on, good, h)
    ]
  ]

  -- A server keeps the configuration that it was made from.
  pub new_server-cfg :
      (F : Files) (crypto : Crypto) (bytes : String → List ℕ) (key : Option K.Key) (now : ℕ)
      (files : F.Disk) (s : Server B K)
      → (new_server F crypto bytes disk key now cfg files).1 ≡ started s
      → s.cfg ≡ cfg
  unfolding new_server
  new_server-cfg F crypto bytes key now files s h = elim (Option-cases (validate_server cfg)) [
    | inr (e, bad) ↦ absurd (ground arith)
    | inl good ↦ elim (Option-cases (load_or_generate_signer K F cfg.host_key_path key files).1) [
      | inl refused ↦ absurd (ground arith)
      | inr (signer, made) ↦
          add_blocker-cfg s (fresh_server crypto bytes now cfg signer) (ground arith)
    ]
  ]

-- If the password protection is on, and the block and the lifetime of a record are so many seconds
-- that their nanoseconds fit 63 bits: a server that starts has an accepted configuration and a
-- blocker over a database, with the settings of the configuration, also where it names no file.
pub new_server_protected :
    {B : Bucket} {K : KeyTools} (disk : Disk B.Db) (cfg : ServerConfig) (F : Files)
    (crypto : Crypto) (bytes : String → List ℕ) (key : Option K.Key) (now : ℕ) (files : F.Disk)
    (s : Server B K)
    → cfg.auth_disabled ≡ false
    → second * pos_part cfg.auth_block_duration < 2 ^ 63
    → second * pos_part cfg.auth_record_ttl < 2 ^ 63
    → (new_server F crypto bytes disk key now cfg files).1 ≡ started s
    → IsAccepted cfg
      × (b : AuthBlocker B) × (d : B.Db) × (s.blocker ≡ some b)
      × (b.db ≡ some d)
      × (settings b ≡ configured cfg)
new_server_protected disk cfg F crypto bytes key now files s on block ttl h =
    let (good, s', added) = new_server_cases disk cfg F crypto bytes key now files s h in
    let (b, made, protected) = add_blocker_cases disk cfg s s' on added in
    let accepted = (validate_server_iff cfg).0 good in
    let (d, opened) = opened_lem disk (blocker_config cfg) b made (db_path_lem cfg) in
    (
      accepted,
      b,
      d,
      protected,
      opened,
      settings_lem disk cfg b (accepted.guarded on) block ttl made,
    )

overflow_lem :
    (n : ℤ) (d : ℕ)
    → 2 ^ 63 ≤ second * pos_part n
    → second * pos_part n < 2 ^ 64
    → or_default (in_seconds n) d ≡ d
unfolding or_default wrap64
overflow_lem (pos n) d low high = ground arith
overflow_lem (negsuc n) d low high = absurd (omega arith)

-- If the password protection is on, and the block is so many seconds that their nanoseconds need 64
-- bits: a server that starts blocks for the default ten minutes only.
pub new_server_overflow :
    {B : Bucket} {K : KeyTools} (disk : Disk B.Db) (cfg : ServerConfig) (F : Files)
    (crypto : Crypto) (bytes : String → List ℕ) (key : Option K.Key) (now : ℕ) (files : F.Disk)
    (s : Server B K)
    → cfg.auth_disabled ≡ false
    → 2 ^ 63 ≤ second * pos_part cfg.auth_block_duration
    → second * pos_part cfg.auth_block_duration < 2 ^ 64
    → (new_server F crypto bytes disk key now cfg files).1 ≡ started s
    → (b : AuthBlocker B) × (s.blocker ≡ some b) × (b.block_dur ≡ 600 * second)
unfolding blocker_config
new_server_overflow disk cfg F crypto bytes key now files s on low high h =
    let (_, s', added) = new_server_cases disk cfg F crypto bytes key now files s h in
    let (b, made, protected) = add_blocker_cases disk cfg s s' on added in
    let (_, block_dur, _) = chosen_lem disk (blocker_config cfg) b made in
    (b, protected, block_dur ∙ overflow_lem cfg.auth_block_duration (600 * second) low high)
