-- ===== src/Main/Commands.antt =====
-- What a command does, over the socket and down to the client or the server.
use tbore.Base.{
  ℕ, ◌*◌, ◌^◌, ◌<◌, ◌≡◌, refl, sym, ap, subst, [], ◌∙◌, String, string_eq, All, false, List, Option,
  none, some, arith, Option-cases, inl, inr,
}
use tbore.Base.Int.{pos_part}
use tbore.Config.{ServerConfig, TunnelConfig, ClientConfig, validate_client, set_server_defaults}
use tbore.Config.Defaults.{IsAccepted}
use tbore.Config.Load.{Source, load_server_config}
use tbore.Auth.Store.{Bucket}
use tbore.Auth.Blocker.{AuthBlocker, Disk, second}
use tbore.Auth.Blocker.Refinement.{settings}
use tbore.Auth.Authenticator.{Crypto}
use tbore.Auth.Keys.{KeyTools, Files}
use tbore.Server.Start.{Server, NewServer, started, failed, new_server}
use tbore.Server.Start.Protection.{configured, new_server_protected, new_server-cfg}
use tbore.Base.GoMap.{NodupKeys, lookup}
use tbore.Client.Tunnels.{by_name}
use tbore.Client.Tunnels.Same.{Serves}
use tbore.Client.Reloads.{Running, Event, connects, turns, trigger_reload, step, run}
use tbore.Client.Reloads.Triggers.{Finds, triggered_reached}
use tbore.Client.Reloads.Served.{triggered_served}
use tbore.Main.{serves, or_fatal, run_server, Texts, handle_command}
use tbore.Main.Sockets.{Socket, IsSocket, IsShort, IsCommand, run_reload}

module _ (X : Texts) (S : Socket) (socket : IsSocket S) where
  reload_lem :
      (r : Running)
      → IsCommand X "reload"
      → IsShort X "Reload triggered\n"
      → run_reload X S r ≡ (trigger_reload r, some (X.bytes "Reload triggered\n"))
  unfolding run_reload handle_command string_eq
  reload_lem r command reply =
      rw
        (
          socket.whole 1024 (X.bytes "reload") command.short.some_bytes command.short.few_bytes
              (omega arith),
          handle_command,
          command.trimmed,
          socket.whole 1024 (X.bytes "Reload triggered\n") reply.some_bytes reply.few_bytes
              (omega arith),
        )
        refl

  pub reload_command_reached :
      (r : Running) (cfg : ClientConfig) (l : List Event) (listen listen' : TunnelConfig → Option ℕ)
      (n : String)
      → IsCommand X "reload"
      → IsShort X "Reload triggered\n"
      → NodupKeys r.client.tunnels
      → validate_client cfg ≡ none
      → All (Finds cfg) l
      → ((t : TunnelConfig) → (port : ℕ) × (listen t ≡ some port))
      → ((t : TunnelConfig) → (port : ℕ) × (listen' t ≡ some port))
      → let s =
          step (turns (some cfg) listen') (step (connects listen) (run l (run_reload X S r).0)) in
        ((run_reload X S r).1 ≡ some (X.bytes "Reload triggered\n"))
        × (s.client.cfg ≡ cfg)
        × Serves (lookup n s.client.tunnels) (lookup n (by_name cfg.tunnels []))
  reload_command_reached r cfg l listen listen' n command reply unique valid finds grants grants' =
      let done = reload_lem r command reply in
      let end : Running → Running =
        λ x. step (turns (some cfg) listen') (step (connects listen) (run l x)) in
      let triggered : (run_reload X S r).0 ≡ trigger_reload r = ap (λ x. x.0) done in
      (
        ap (λ x. x.1) done,
        ap (λ x. (end x).client.cfg) triggered
            ∙ (triggered_reached cfg l r listen listen' valid finds).1,
        subst (λ x. Serves (lookup n (end x).client.tunnels) (lookup n (by_name cfg.tunnels [])))
            (sym triggered)
            (triggered_served cfg l r listen listen' n valid unique finds grants grants'),
      )

module _ {B : Bucket} {K : KeyTools} where
  served_lem : (r : NewServer B K) (s : Server B K) → or_fatal r ≡ serves s → r ≡ started s
  served_lem (failed e) s h = absurd (ground (arith, h))
  served_lem (started s') s h = ground (arith, h)

  run_server_lem :
      (source : Source) (F : Files) (crypto : Crypto) (bytes : String → List ℕ) (disk : Disk B.Db)
      (key : Option K.Key) (now : ℕ) (path : String) (files : F.Disk) (s : Server B K)
      → (run_server source F crypto bytes disk key now path files).1 ≡ serves s
      → (cfg : ServerConfig) × (load_server_config source path ≡ some cfg)
        × ((new_server F crypto bytes disk key now cfg files).1 ≡ started s)
  unfolding run_server
  run_server_lem source F crypto bytes disk key now path files s h =
      elim (Option-cases (load_server_config source path)) [
        | inl missing ↦ absurd (ground (arith, missing, h))
        | inr (cfg, loaded) ↦ (cfg, loaded, served_lem _ s (rw (loaded, run_server) at h))
      ]

load_server_config_lem :
    (source : Source) (path : String) (cfg : ServerConfig)
    → load_server_config source path ≡ some cfg
    → (content : List ℕ) × (raw : ServerConfig) × (source.read_file path ≡ some content)
      × (source.server_yaml content ≡ some raw)
      × (cfg ≡ set_server_defaults raw)
unfolding load_server_config
load_server_config_lem source path cfg h = elim (Option-cases (source.read_file path)) [
  | inl missing ↦ absurd (ground (arith, missing, h))
  | inr (content, reads) ↦ elim (Option-cases (source.server_yaml content)) [
    | inl bad ↦ absurd (ground (arith, reads, bad, h))
    | inr (raw, parses) ↦ (content, raw, reads, parses, ground (arith, reads, parses, h))
  ]
]

-- If the command `server` comes to serve, its file was read and parsed, and the server has the
-- configuration that the file gives, with the defaults. If that leaves the password protection on,
-- with a block and a lifetime of a record of so many seconds that their nanoseconds fit 63 bits, the
-- configuration is an accepted one, and there is a blocker over a database with its settings.
pub run_server_protected :
    {B : Bucket} {K : KeyTools} (source : Source) (F : Files) (crypto : Crypto)
    (bytes : String → List ℕ) (disk : Disk B.Db) (key : Option K.Key) (now : ℕ) (path : String)
    (files : F.Disk) (s : Server B K)
    → (run_server source F crypto bytes disk key now path files).1 ≡ serves s
    → s.cfg.auth_disabled ≡ false
    → second * pos_part s.cfg.auth_block_duration < 2 ^ 63
    → second * pos_part s.cfg.auth_record_ttl < 2 ^ 63
    → ((content : List ℕ) × (raw : ServerConfig) × (source.read_file path ≡ some content)
        × (source.server_yaml content ≡ some raw)
        × (s.cfg ≡ set_server_defaults raw))
      × IsAccepted s.cfg
      × (b : AuthBlocker B) × (d : B.Db) × (s.blocker ≡ some b)
      × (b.db ≡ some d)
      × (settings b ≡ configured s.cfg)
run_server_protected source F crypto bytes disk key now path files s h on block ttl =
    let (cfg, loaded, made) = run_server_lem source F crypto bytes disk key now path files s h in
    let same : s.cfg ≡ cfg = new_server-cfg disk cfg F crypto bytes key now files s made in
    let protected =
      new_server_protected disk s.cfg F crypto bytes key now files s on block ttl
        (ap (λ c. (new_server F crypto bytes disk key now c files).1) same ∙ made) in
    let (accepted, b, d, there, opened, chosen) = protected in
    (
      load_server_config_lem source path s.cfg (loaded ∙ ap some (sym same)),
      accepted,
      b,
      d,
      there,
      opened,
      chosen,
    )
