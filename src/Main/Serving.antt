-- ===== src/Main/Serving.antt =====
-- tbore.go, startClientControlServer and startStatusServer from their listeners on, and printUsage;
-- pkg/version/version.go. What the goroutine of a connection does to the client is one step,
-- and other goroutines of the client take theirs between two of these.
pub mod Answers
mod Tests
use tbore.Base.{ℕ, String, length, if◌then◌else◌, Bool, List, [], ◌∷◌, ◌++◌, Option, none, some}
use tbore.Base.Int.{ℤ}
use tbore.Auth.Store.{Bucket}
use tbore.Config.{ServerConfig}
use tbore.Client.Reloads.{Running, Event, run}
use tbore.Server.Connections.{Semaphore}
use tbore.Server.Live.{get_status}
use tbore.Server.Live
use tbore.Server.Status.Page.{Page, page}
use tbore.Main.{Texts, Action, prints_usage, handle_command}

-- What happens next: `listener.Accept` answers an error, or a connection with what one `Read` of it
-- gives, if that is no error; or the other goroutines of the client go on, the reload loop among them.
pub data Accepted : Type 0 where
  accept_error : Accepted
  connection : (received : Option (List ℕ)) → Accepted
  meanwhile : (events : List Event) → Accepted

-- No connection comes without a listener.
abbrev pub unreached : List Accepted → List Accepted
unreached [] = []
unreached (meanwhile events ∷ l) = meanwhile events ∷ unreached l
unreached (_ ∷ l) = unreached l

module _ (X : Texts) where
  -- The loop over `listener.Accept`, with the goroutines that it starts, each when it runs: the client,
  -- and what is written to each connection.
  unfoldable pub serve_commands : List Accepted → Running → Running × List (Option (List ℕ))
  unfolding handle_command run
  serve_commands [] r = (r, [])
  serve_commands (accept_error ∷ l) r = serve_commands l r
  serve_commands (meanwhile events ∷ l) r = serve_commands l (run events r)
  serve_commands (connection received ∷ l) r =
      let (r', answer) = handle_command X received r in
      let (r'', answers) = serve_commands l r' in (r'', answer ∷ answers)

  -- Without a listener the client goes on, and cannot be reached.
  unfoldable pub start_client_control_server :
      Bool → List Accepted → Running → Running × List (Option (List ℕ))
  unfolding serve_commands
  start_client_control_server listens l r =
      if listens then serve_commands l r else serve_commands (unreached l) r

module _ {B : Bucket} {W : Semaphore} (format_active : ℤ → String) (format_port : ℕ → String)
    (both : String → String → String) (cfg : ServerConfig) where
  -- The pages that are written, of the server at the time of each connection; `none` is an error of
  -- `listener.Accept`.
  unfoldable pub serve_pages : List (Option (Live.Running B W)) → List Page
  unfolding get_status
  serve_pages [] = []
  serve_pages (none ∷ l) = serve_pages l
  serve_pages (some t ∷ l) = page format_active format_port both cfg (get_status t) ∷ serve_pages l

  unfoldable pub start_status_server : Bool → List (Option (Live.Running B W)) → List Page
  unfolding serve_pages
  start_status_server listens l = if listens then serve_pages l else []

abbrev pub version : String
version = "0.7.0"

-- `heading` is `fmt.Printf("tbore v%s\n", …)`, and the others are lines of `fmt.Println`.
unfoldable pub print_usage : (String → String) → List String
print_usage heading =
    heading version
    ∷ "Usage:"
    ∷ "  tbore server -c <config.yaml>"
    ∷ "  tbore client -c <config.yaml>"
    ∷ "  tbore reload [-s <socket_path>]"
    ∷ "  tbore status [-s <socket_path>]"
    ∷ "  tbore client-status [-s <socket_path>]"
    ∷ []
