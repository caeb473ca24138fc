-- ===== src/Server/Start.antt =====
-- pkg/server/server.go, `NewServer`: how a server is made from its configuration.
pub mod Protection
pub mod Sample
mod Tests
use tbore.Base.{
  ℕ, ◌==◌, string_eq, String, if◌then◌else◌, Bool, true, false, List, Option, none, some,
}
use mathlib.Core.Option
use tbore.Base.Int.{ℤ, wrap64, scale_ℤ}
use tbore.Config.{ServerConfig, ServerError, validate_server}
use tbore.Auth.Store.{Bucket}
use tbore.Auth.Blocker.{
  AuthBlocker, AuthBlockerConfig, OpenError, Disk, Result, ok, err, new_auth_blocker, second,
}
use tbore.Auth.Authenticator.{Crypto, Authenticator, new_authenticator}
use tbore.Auth.Keys.{KeyTools, Files, load_or_generate_signer}

-- `DefaultAuthDBPath`
abbrev pub default_auth_db_path : String
default_auth_db_path = "data/auth.db"

-- `time.Duration(seconds) * time.Second`
abbrev pub in_seconds : ℤ → ℤ
in_seconds n = wrap64 (scale_ℤ second n)

unfoldable pub blocker_config : ServerConfig → AuthBlockerConfig
blocker_config cfg = record {
  db_path = if cfg.auth_block_db_path == "" then default_auth_db_path else cfg.auth_block_db_path;
  max_failures = cfg.auth_max_failures;
  block_duration = in_seconds cfg.auth_block_duration;
  lru_size = cfg.auth_lru_size;
  clean_interval = in_seconds cfg.auth_clean_interval;
  record_ttl = in_seconds cfg.auth_record_ttl;
}

pub data StartError : Type 0 where
  invalid_config : ServerError → StartError
  no_signer : StartError
  init_auth_blocker : OpenError → StartError

module _ (B : Bucket) (K : KeyTools) where
  -- The semaphore of connections is its size.
  pub record Server : Type 0 where
    pub cfg : ServerConfig
    pub auth : Authenticator
    pub blocker : Option (AuthBlocker B)
    pub sem : ℤ
    pub signer : K.Signer
    pub server_started : ℕ

  pub data NewServer : Type 0 where
    started : Server → NewServer
    failed : StartError → NewServer

module _ {B : Bucket} {K : KeyTools} where
  -- The last part of `NewServer`.
  unfoldable pub add_blocker : Disk B.Db → ServerConfig → Server B K → NewServer B K
  add_blocker disk cfg s =
      if cfg.auth_disabled then started s else elim (new_auth_blocker B disk (blocker_config cfg)) [
        | err e ↦ failed (init_auth_blocker e)
        | ok b ↦ started (record s { blocker = some b })
      ]

  -- `s := &Server{…}`, where `bytes` is the conversion of a string to its bytes.
  abbrev pub fresh_server : Crypto → (String → List ℕ) → ℕ → ServerConfig → K.Signer → Server B K
  fresh_server crypto bytes now cfg signer = record {
    cfg = cfg;
    auth = new_authenticator crypto (bytes cfg.token);
    blocker = none;
    sem = cfg.max_connections;
    signer = signer;
    server_started = now;
  }

  -- The files come back as they are left.
  unfoldable pub new_server :
      (F : Files)
      → Crypto
      → (String → List ℕ)
      → Disk B.Db
      → Option K.Key
      → ℕ
      → ServerConfig
      → F.Disk
      → F.Disk × NewServer B K
  unfolding add_blocker
  new_server F crypto bytes disk key now cfg files = elim (validate_server cfg) [
    | some e ↦ (files, failed (invalid_config e))
    | none ↦
        let (files', made) = load_or_generate_signer K F cfg.host_key_path key files in
        elim made [
          | none ↦ (files', failed no_signer)
          | some signer ↦ (files', add_blocker disk cfg (fresh_server crypto bytes now cfg signer))
        ]
  ]
