-- ===== src/Server/Start/Sample.antt =====
-- A server that starts, for the concrete inputs.
use tbore.Base.{◌*◌, ◌≡◌, refl, string_eq, nat_eq, [], ◌∷◌, some}
use tbore.Base.Int.{pos, wrap64}
use tbore.Base.GoMap.{lookup}
use tbore.Config.{validate_server, validate_auth}
use tbore.Auth.Blocker.{new_auth_blocker, open_db, or_default, second}
use tbore.Auth.Lru.{new_lru_cache}
use tbore.Auth.Keys.{load_or_generate_signer}
use tbore.Auth.Sample.{memory_bucket}
use tbore.Auth.Sample.Blocker.{memory_disk, empty_db, toy_crypto}
use tbore.Auth.Sample.Keys.{plain_keys, memory_files}
use tbore.Server.Sample.{config, token_bytes}
use tbore.Server.Start.{Server, started, fresh_server, new_server, add_blocker, blocker_config}

-- The server that starts.
abbrev pub server : Server memory_bucket plain_keys
server = record (fresh_server toy_crypto token_bytes 5 config (9 ∷ [])) {
  blocker = some (record {
    db = some empty_db;
    lru = new_lru_cache (pos 1000);
    max_failures = 3;
    block_dur = 600 * second;
    record_ttl = 86_400 * second;
    clean_inter = 60 * second;
  });
}

pub starts :
    (new_server memory_files toy_crypto token_bytes memory_disk (some (9 ∷ [])) 5 config []).1
    ≡ started server
unfolding new_server validate_server validate_auth load_or_generate_signer add_blocker
    blocker_config new_auth_blocker open_db or_default wrap64 string_eq nat_eq lookup
starts = refl
