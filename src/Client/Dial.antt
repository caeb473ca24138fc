-- ===== src/Client/Dial.antt =====
-- pkg/client/client.go, the part of `Start` that dials the server.
use tbore.Base.{List, ℕ, ◌++◌, String, ◌==◌, string_eq, Bool, ◌||◌}
use tbore.Auth.Authenticator.{Crypto, Authenticator, generate_challenge, compute_response}

-- The password that a client sends: the challenge and its response.
unfoldable pub auth_string : Crypto → Authenticator → List ℕ → List ℕ
auth_string crypto a random =
    let challenge = generate_challenge random in challenge ++ compute_response crypto a challenge

-- `HostKeyCallback`: an empty `host_key` in the configuration accepts every key.
unfoldable pub host_key_accepted : String → String → Bool
host_key_accepted host_key fingerprint = host_key == "" || fingerprint == host_key
