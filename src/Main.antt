-- ===== src/Main.antt =====
-- tbore.go: the commands of the program, and the control sockets by which they reach a running client
-- or server. The sockets themselves, log messages and the text of the usage are not modelled.
pub mod Commands
pub mod Sockets
pub mod Serving
mod Tests
use tbore.Base.{
  ℕ, ◌==◌, string_eq, String, ◌++◌, if◌then◌else◌, Bool, true, false, List, [], ◌∷◌, Option, none,
  some,
}
use tbore.Base.Int.{ℤ}
use tbore.Config.{ClientError}
use tbore.Config.Load.{Source, load_server_config, load_client_config}
use tbore.Auth.Store.{Bucket}
use tbore.Auth.Blocker.{Disk}
use tbore.Auth.Authenticator.{Crypto, Authenticator}
use tbore.Auth.Keys.{KeyTools, Files}
use tbore.Server.Start.{Server, StartError, NewServer, started, failed, new_server}
use tbore.Client.Tunnels.{
  Client, NewResult, made, refused, new_client, TunnelStatus, get_tunnel_status,
}
use tbore.Client.Reloads.{Running, trigger_reload}

-- What `main` does: `exits` is a flag set that does not parse.
pub data Action : Type 0 where
  prints_usage exits : Action
  runs_server runs_client runs_reload runs_status runs_client_status : String → Action

abbrev pub or_exit : (String → Action) → Option String → Action
or_exit act none = exits
or_exit act (some value) = act value

-- `parse` is a flag set with one flag: its name, its default value and the arguments.
unfoldable pub main : (String → String → List String → Option String) → List String → Action
main parse [] = prints_usage
main parse (_ ∷ []) = prints_usage
main parse (_ ∷ command ∷ args) =
    if command == "server"
    then or_exit runs_server (parse "c" "server.yaml" args)
    else if command == "client"
    then or_exit runs_client (parse "c" "client.yaml" args)
    else if command == "reload"
    then or_exit runs_reload (parse "s" "/var/run/tbore-client.sock" args)
    else if command == "status"
    then or_exit runs_status (parse "s" "/var/run/tbore.sock" args)
    else if command == "client-status"
    then or_exit runs_client_status (parse "s" "/var/run/tbore-client.sock" args)
    else prints_usage

module _ (B : Bucket) (K : KeyTools) where
  -- How far `runServer` comes: the rest is `Start` and the status socket.
  pub data RunServer : Type 0 where
    no_server_config : RunServer
    no_server : StartError → RunServer
    serves : Server B K → RunServer

abbrev pub or_fatal : {B : Bucket} {K : KeyTools} → NewServer B K → RunServer B K
or_fatal (failed e) = no_server e
or_fatal (started s) = serves s

-- The files come back as they are left.
unfoldable pub run_server :
    {B : Bucket} {K : KeyTools}
    → Source
    → (F : Files) → Crypto
    → (String → List ℕ)
    → Disk B.Db
    → Option K.Key
    → ℕ
    → String
    → F.Disk
    → F.Disk × RunServer B K
run_server source F crypto bytes disk key now config_path files =
    elim (load_server_config source config_path) [
      | none ↦ (files, no_server_config)
      | some cfg ↦
          let (files', result) = new_server F crypto bytes disk key now cfg files in
          (files', or_fatal result)
    ]

pub data RunClient : Type 0 where
  no_client_config : RunClient
  no_client : ClientError → RunClient
  connects_as : Client → RunClient

unfoldable pub run_client : Source → (String → Authenticator) → String → RunClient
run_client source authenticator config_path = elim (load_client_config source config_path) [
  | none ↦ no_client_config
  | some cfg ↦ elim (new_client authenticator cfg) [
    | refused e ↦ no_client e
    | made c ↦ connects_as c
  ]
]

-- Texts as bytes: a string, `strings.TrimSpace`, and the `fmt.Sprintf` of a tunnel's line with its
-- name, its remote port, its local end and "ACTIVE" or "INACTIVE".
pub record Texts : Type 0 where
  pub bytes : String → List ℕ
  pub trim_space : List ℕ → String
  pub line : String → ℕ → String → ℤ → String → List ℕ

module _ (X : Texts) where
  unfoldable pub status_lines : List TunnelStatus → List ℕ
  status_lines [] = []
  status_lines (t ∷ ts) =
      X.line t.name t.remote_port t.local_ip t.local_port
        (if t.active then "ACTIVE" else "INACTIVE")
      ++ status_lines ts

  -- The goroutine of a connection to the client's socket: what it read, and what it writes, if
  -- anything.
  unfoldable pub handle_command : Option (List ℕ) → Running → Running × Option (List ℕ)
  unfolding status_lines
  handle_command received r = elim received [
    | none ↦ (r, none)
    | some buf ↦
        let command = X.trim_space buf in
        if command == "reload"
        then (trigger_reload r, some (X.bytes "Reload triggered\n"))
        else if command == "status"
        then (r, some (status_lines (get_tunnel_status r.client.tunnels)))
        else (r, some (X.bytes "Unknown command\n"))
  ]
