-- ===== src/Main/Sockets.antt =====
-- What the commands print of what a control socket answers.
use tbore.Base.{ℕ, ◌<◌, ◌≤◌, ◌≡◌, String, string_eq, length, List, Option, none, some}
use tbore.Client.Reloads.{Running}
use tbore.Main.{Texts, handle_command}

-- A unix socket: what one `Read` into a buffer of that size gives of what one `Write` sent before;
-- `none` is an error.
pub record Socket : Type 0 where
  pub read : ℕ → List ℕ → Option (List ℕ)

-- A text of at most 1024 bytes is given at once to a `Read` with room for it.
pub record IsSocket (S : Socket) : Type 0 where
  pub whole :
      (n : ℕ) (sent : List ℕ)
      → 0 < length sent
      → length sent ≤ 1024
      → 1024 ≤ n
      → S.read n sent ≡ some sent

-- No answer leaves nothing to read.
abbrev pub received : Socket → ℕ → Option (List ℕ) → Option (List ℕ)
received S n none = none
received S n (some sent) = S.read n sent

module _ (X : Texts) (S : Socket) where
  -- `runReload` on a connection to the client, and what it prints; `none` is a fatal error.
  unfoldable pub run_reload : Running → Running × Option (List ℕ)
  run_reload r =
      let (r', answer) = handle_command X (S.read 1024 (X.bytes "reload")) r in
      (r', received S 1024 answer)

  unfoldable pub run_client_status : Running → Running × Option (List ℕ)
  run_client_status r =
      let (r', answer) = handle_command X (S.read 1024 (X.bytes "status")) r in
      (r', received S 4096 answer)

-- `runStatus`: the server writes its status page, whatever is sent.
unfoldable pub run_status : Socket → List ℕ → Option (List ℕ)
run_status S page = S.read 65_536 page

-- A text that one `Read` of a socket gives whole.
pub record IsShort (X : Texts) (text : String) : Type 0 where
  pub some_bytes : 0 < length (X.bytes text)
  pub few_bytes : length (X.bytes text) ≤ 1024

-- A short text that `strings.TrimSpace` leaves as it is.
pub record IsCommand (X : Texts) (command : String) : Type 0 where
  pub trimmed : X.trim_space (X.bytes command) ≡ command
  pub short : IsShort X command
