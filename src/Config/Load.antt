-- ===== src/Config/Load.antt =====
-- pkg/config/config.go, LoadServerConfig and LoadClientConfig, over what `os.ReadFile` and
-- `yaml.Unmarshal` answer.
use tbore.Base.{ℕ, String, List, Option, none, some}
use tbore.Config.{ServerConfig, ClientConfig, set_server_defaults, set_client_defaults}

-- `yaml.Unmarshal` leaves zero for a key that is missing; `none` stands for an error.
pub record Source : Type 0 where
  pub read_file : String → Option (List ℕ)
  pub server_yaml : List ℕ → Option ServerConfig
  pub client_yaml : List ℕ → Option ClientConfig

unfoldable pub load_server_config : Source → String → Option ServerConfig
load_server_config source path = elim (source.read_file path) [
  | none ↦ none
  | some bytes ↦ elim (source.server_yaml bytes) [
    | none ↦ none
    | some cfg ↦ some (set_server_defaults cfg)
  ]
]

unfoldable pub load_client_config : Source → String → Option ClientConfig
load_client_config source path = elim (source.read_file path) [
  | none ↦ none
  | some bytes ↦ elim (source.client_yaml bytes) [
    | none ↦ none
    | some cfg ↦ some (set_client_defaults cfg)
  ]
]
