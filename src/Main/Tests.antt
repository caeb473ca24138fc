-- ===== src/Main/Tests.antt =====
-- The theorems about the commands, at concrete inputs.
use tbore.Base.{
  ℕ, zero, suc, ◌<◌, ◌≤◌, ◌≡◌, refl, ap, String, string_eq, nat_eq, ◌==◌, length, take,
  take_of_length-le, if◌then◌else◌, false, List, [], ◌∷◌, Option, none, some, arith,
}
use tbore.Base.Int.{pos, wrap64}
use tbore.Base.GoMap.{lookup}
use tbore.Config.{ServerConfig, set_server_defaults, validate_server, validate_auth}
use tbore.Config.Defaults.{IsAccepted}
use tbore.Config.Load.{Source, load_server_config}
use tbore.Auth.Blocker.{AuthBlocker, new_auth_blocker, open_db, or_default}
use tbore.Auth.Blocker.Refinement.{settings}
use tbore.Auth.Keys.{load_or_generate_signer}
use tbore.Auth.Sample.{memory_bucket}
use tbore.Auth.Sample.Blocker.{memory_disk, toy_crypto}
use tbore.Auth.Sample.Keys.{memory_files}
use tbore.Server.Sample.{config, token_bytes}
use tbore.Server.Start.{new_server, add_blocker, blocker_config}
use tbore.Server.Start.Protection.{configured}
use tbore.Server.Start.Sample.{server}
use tbore.Client.Sample.{client, new_config, new_config-valid, client-distinct}
use tbore.Client.Tunnels.{by_name}
use tbore.Client.Tunnels.Same.{Serves}
use tbore.Client.Reloads.{Running, Event, triggers, loses, connects, turns, step, run}
use tbore.Main.{Texts, serves, run_server}
use tbore.Main.Sockets.{Socket, IsSocket, IsShort, IsCommand, run_reload}
use tbore.Main.Commands.{reload_command_reached, run_server_protected}

trim : List ℕ → String
trim [] = ""
trim (b ∷ l) = if b == 1 then "reload" else "status"

abbrev texts : Texts
texts = record {
  bytes = λ text. if text == "reload" then 1 ∷ [] else if text == "status" then 2 ∷ [] else 3 ∷ [];
  trim_space = trim;
  line = λ name port ip local_port state. port ∷ 10 ∷ [];
}

-- An end of the connection is an error.
read : ℕ → List ℕ → Option (List ℕ)
read n [] = none
read n (b ∷ l) = some (take n (b ∷ l))

abbrev socket : Socket
socket = record { read = read }

length-take : (n : ℕ) (l : List ℕ) → length (take n l) ≤ n
length-take zero l = omega arith
length-take (suc n) [] = omega arith
length-take (suc n) (b ∷ l) = omega (arith, length-take n l)

reads_whole :
    (n : ℕ) (sent : List ℕ)
    → 0 < length sent
    → length sent ≤ 1024
    → 1024 ≤ n
    → read n sent ≡ some sent
unfolding read
reads_whole n [] h few room = absurd (omega (arith, h))
reads_whole n (b ∷ l) h few room = ap some (take_of_length-le n (b ∷ l) (omega (arith, few, room)))

socket-IsSocket : IsSocket socket
socket-IsSocket = record { whole = reads_whole }

reload-IsCommand : IsCommand texts "reload"
unfolding string_eq trim nat_eq
reload-IsCommand = record {
  trimmed = refl;
  short = record { some_bytes = omega arith; few_bytes = omega arith };
}

reply-IsShort : IsShort texts "Reload triggered\n"
unfolding string_eq
reply-IsShort = record { some_bytes = omega arith; few_bytes = omega arith }

abbrev running : Running
running = record { client = client; reload_chan = false }

abbrev events : List Event
events = loses ∷ triggers ∷ connects (λ t. none) ∷ turns (some new_config) (λ t. some 2002) ∷ []

reload_command_reached_example :
    let s =
      step
        (turns (some new_config) (λ t. some 2004))
        (step (connects (λ t. some 2003)) (run events (run_reload texts socket running).0)) in
    ((run_reload texts socket running).1 ≡ some (3 ∷ []))
    × (s.client.cfg ≡ new_config)
    × Serves (lookup "ssh" s.client.tunnels) (lookup "ssh" (by_name new_config.tunnels []))
unfolding string_eq
reload_command_reached_example =
    reload_command_reached texts socket socket-IsSocket running new_config events (λ t. some 2003)
      (λ t. some 2004) "ssh" reload-IsCommand reply-IsShort client-distinct new_config-valid
      (tt, (tt, (tt, (refl, tt)))) (λ t. (2003, refl)) (λ t. (2004, refl))

-- The file leaves out what the defaults give.
abbrev raw : ServerConfig
raw = record config { port = pos 0; bind_addr = ""; auth_max_failures = pos 0 }

abbrev source : Source
source = record {
  read_file = λ path. some (5 ∷ []);
  server_yaml = λ content. some raw;
  client_yaml = λ content. none;
}

comes_up :
    (run_server source memory_files toy_crypto token_bytes memory_disk
      (some (9 ∷ []))
      5
      "server.yaml"
      []).1
    ≡ serves server
unfolding run_server load_server_config set_server_defaults new_server validate_server validate_auth
    load_or_generate_signer add_blocker blocker_config new_auth_blocker open_db or_default wrap64
    string_eq nat_eq lookup
comes_up = refl

run_server_protected_example :
    ((content : List ℕ) × (from_file : ServerConfig) × (source.read_file "server.yaml"
        ≡ some content)
      × (source.server_yaml content ≡ some from_file)
      × (server.cfg ≡ set_server_defaults from_file))
    × IsAccepted server.cfg
    × (b : AuthBlocker memory_bucket) × (d : memory_bucket.Db) × (server.blocker ≡ some b)
    × (b.db ≡ some d)
    × (settings b ≡ configured server.cfg)
run_server_protected_example =
    run_server_protected source memory_files toy_crypto token_bytes memory_disk (some (9 ∷ [])) 5
      "server.yaml" [] server comes_up refl (omega arith) (omega arith)
