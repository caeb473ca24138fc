-- ===== src/Auth/Sample/Blocker.antt =====
-- A blocker over an empty database in memory, and a toy keyed hash.
use tbore.Base.{◌*◌, ◌≡◌, refl, String, string_eq, nat_eq, true, ◌++◌, [], ◌∷◌, none, some}
use tbore.Base.Int.{pos}
use tbore.Base.GoMap.{lookup}
use tbore.Auth.Lru.{new_lru_cache}
use tbore.Auth.Authenticator.{Crypto, Authenticator}
use tbore.Auth.Blocker.{
  parse, AuthBlocker, AuthBlockerConfig, Disk, ok, new_auth_blocker, or_default, open_db, stored,
  second,
}
use tbore.Auth.Blocker.Coherence.{Agrees}
use tbore.Auth.Lru.Invariant.{new_lru_cache-IsValid}
use tbore.Auth.Lru.Elements.{entries}
use mathlib.Core.Option.{none-ne-some}
use tbore.Auth.Blocker.Spec.{Memory}
use tbore.Auth.Blocker.Refinement.{Implements, settings}
use tbore.Auth.Sample.{memory_bucket, record_codec}

abbrev pub empty_db : memory_bucket.Db
empty_db = ([], tt)

abbrev pub memory_disk : Disk memory_bucket.Db
memory_disk = record {
  dir = λ path. "data";
  mkdir_all = λ dir. true;
  open_file = λ path. some empty_db;
  make_bucket = λ d. some d;
}

abbrev pub blocker_config : AuthBlockerConfig
blocker_config = record {
  db_path = "data/auth.db";
  max_failures = pos 3;
  block_duration = pos (600 * second);
  lru_size = pos 2;
  clean_interval = pos 0;
  record_ttl = pos 0;
}

abbrev pub fresh_blocker : AuthBlocker memory_bucket
fresh_blocker = record {
  db = some empty_db;
  lru = new_lru_cache (pos 2);
  max_failures = 3;
  block_dur = 600 * second;
  record_ttl = 86_400 * second;
  clean_inter = 60 * second;
}

abbrev pub nothing_stored : Memory
nothing_stored = stored memory_bucket record_codec empty_db

pub opens : new_auth_blocker memory_bucket memory_disk blocker_config ≡ ok fresh_blocker
unfolding new_auth_blocker open_db or_default string_eq
opens = refl

pub empty-Agrees : Agrees memory_bucket record_codec empty_db fresh_blocker.lru
unfolding new_lru_cache entries lookup
empty-Agrees = λ ip rec h. absurd (none-ne-some rec h)

abbrev pub fresh_blocker-Implements :
    Implements memory_bucket record_codec (settings fresh_blocker) fresh_blocker nothing_stored
fresh_blocker-Implements = record {
  disk = empty_db;
  coherent = record { opened = refl; valid = new_lru_cache-IsValid (pos 2); agrees = empty-Agrees };
  known = λ ip. refl;
  configured = refl;
}

pub nothing_stored-none : (ip : String) → nothing_stored ip ≡ none
unfolding stored parse nat_eq lookup
nothing_stored-none ip = refl

abbrev pub toy_crypto : Crypto
toy_crypto = record { sha256 = λ x. x; hmac_sha256 = λ key message. key ++ message }

abbrev pub server_auth : Authenticator
server_auth = record { secret = 7 ∷ 11 ∷ [] }
