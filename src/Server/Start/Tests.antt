-- ===== src/Server/Start/Tests.antt =====
-- The theorem about the start of a server, for a configuration that names no database.
use tbore.Base.{◌*◌, ◌≡◌, refl, string_eq, nat_eq, [], ◌∷◌, some, arith}
use tbore.Base.Int.{pos, wrap64}
use tbore.Base.GoMap.{lookup}
use tbore.Config.{ServerConfig, validate_server, validate_auth}
use tbore.Auth.Blocker.{AuthBlocker, new_auth_blocker, open_db, or_default, second}
use tbore.Auth.Keys.{load_or_generate_signer}
use tbore.Auth.Sample.{memory_bucket}
use tbore.Auth.Sample.Blocker.{memory_disk, toy_crypto}
use tbore.Auth.Sample.Keys.{plain_keys, memory_files}
use tbore.Server.Sample.{config, token_bytes}
use tbore.Server.Start.Sample.{server}
use tbore.Server.Start.{Server, started, new_server, add_blocker, blocker_config}
use tbore.Server.Start.Protection.{new_server_overflow}

-- 300 years.
abbrev long_config : ServerConfig
long_config = record config { auth_block_duration = pos 9_460_800_000 }

abbrev long_server : Server memory_bucket plain_keys
long_server = record server { cfg = long_config }

long_starts :
    (new_server memory_files toy_crypto token_bytes memory_disk (some (9 ∷ [])) 5 long_config []).1
    ≡ started long_server
unfolding new_server validate_server validate_auth load_or_generate_signer add_blocker
    blocker_config new_auth_blocker open_db or_default wrap64 string_eq nat_eq lookup
long_starts = refl

new_server_overflow_example :
    (b : AuthBlocker memory_bucket) × (long_server.blocker ≡ some b) × (b.block_dur ≡ 600 * second)
new_server_overflow_example =
    new_server_overflow memory_disk long_config memory_files toy_crypto token_bytes (some (9 ∷ []))
      5 [] long_server refl (omega arith) (omega arith) long_starts
