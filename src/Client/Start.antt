-- ===== src/Client/Start.antt =====
-- pkg/client/client.go, the loop of `Start` with its waits, handleSignals, and the goroutines that run
-- beside a connection: sendKeepAlive, healthCheckLoop and reloadLoop. An event is what one of these
-- goroutines does between two waits.
pub mod Rate
pub mod Helpers
pub mod Recovery
mod Tests
use tbore.Base.{
  ℕ, zero, suc, ◌+◌, ◌*◌, String, string_eq, get_elem?, remove_at, map, leb, if◌then◌else◌, Bool,
  true, false, not, ◌&&◌, ◌||◌, List, [], ◌∷◌, ◌++◌, Option, none, some,
}
use tbore.Config.{TunnelConfig, ClientConfig}
use tbore.Auth.Blocker.{second}
use tbore.Auth.Authenticator.{Crypto, Authenticator}
use tbore.Server.Session.{ClientInfo, HealthMsg}
use tbore.Client.Dial.{auth_string, host_key_accepted}
use tbore.Client.Messages.{send_client_info, health_round}
use tbore.Client.Reloads.{Running, trigger_reload, reload_loop, connect, lose_connection}

-- Where the loop of `Start` is: before `ssh.Dial`, in `client.Wait`, or in a sleep.
pub data Phase : Type 0 where
  dialling up : Phase
  sleeping : (until : ℕ) → Phase

pub data Kind : Type 0 where
  keep_alive health_check reloads : Kind

-- A goroutine with the context of a connection, and whether that is cancelled.
pub record Helper : Type 0 where
  pub kind : Kind
  pub cancelled : Bool

-- `dials` are the times of the calls of `ssh.Dial`, the last one first, with their passwords.
-- `closed` says whether the connection is closed, by whomever.
pub record Starting : Type 0 where
  pub now : ℕ
  pub phase : Phase
  pub client : Running
  pub ssh_client : Bool
  pub closed : Bool
  pub helpers : List Helper
  pub dials : List (ℕ × List ℕ)
  pub infos : List ClientInfo
  pub reports : List HealthMsg

abbrev pub start : ℕ → Running → Starting
start now client = record {
  now = now;
  phase = dialling;
  client = client;
  ssh_client = false;
  closed = false;
  helpers = [];
  dials = [];
  infos = [];
  reports = [];
}

-- What comes of a call of `ssh.Dial`: whether there is a server, its key, whether it lets the client in,
-- and whether the request with the client's information arrives then. `took` is the time that it takes.
pub record Answer : Type 0 where
  pub took : ℕ
  pub reached : Bool
  pub fingerprint : String
  pub lets_in : Bool
  pub takes_info : Bool

abbrev pub retry : ℕ
retry = 5 * second

-- `time.Sleep(5 * time.Second)`
abbrev pub sleep : Starting → Starting
sleep s = record s { phase = sleeping (s.now + retry) }

-- The goroutines that get the context of the connection. Those of handleServerChannels and createTunnel,
-- which start around them, get none and are not in this list.
abbrev pub new_helpers : List Helper
new_helpers =
    record { kind = keep_alive; cancelled = false }
    ∷ record { kind = health_check; cancelled = false }
    ∷ record { kind = reloads; cancelled = false }
    ∷ []

-- `ssh.Dial` succeeds.
unfoldable pub is_let_in : ClientConfig → Answer → Bool
unfolding host_key_accepted
is_let_in cfg a = a.reached && (host_key_accepted cfg.host_key a.fingerprint && a.lets_in)

-- The body of the loop, up to `client.Wait`. `listen` is what the server answers to the tunnels.
unfoldable pub dial :
    Crypto → Authenticator → List ℕ → Answer → (TunnelConfig → Option ℕ) → Starting → Starting
unfolding is_let_in auth_string send_client_info connect
dial crypto auth random a listen s =
    let cfg = s.client.client.cfg in
    let tried = record s {
      now = s.now + a.took;
      dials = (s.now, auth_string crypto auth random) ∷ s.dials;
    } in
    let told = record tried { ssh_client = true; infos = send_client_info cfg ∷ s.infos } in
    if is_let_in cfg a
    then (if a.takes_info
        then record told {
          phase = up;
          closed = false;
          client = connect listen s.client;
          helpers = s.helpers ++ new_helpers;
        }
        else sleep (record told { closed = true }))
    else sleep tried

abbrev pub cancel : Helper → Helper
cancel h = record h { cancelled = true }

-- `client.Wait` returns, and `connCancel`.
unfoldable pub lose : Starting → Starting
unfolding lose_connection
lose s = sleep (record s {
  ssh_client = false;
  client = lose_connection s.client;
  helpers = map cancel s.helpers;
})

-- A tick of sendKeepAlive: the request arrives, or the goroutine closes its connection and returns. The
-- connection of a goroutine that is cancelled is closed already.
unfoldable pub send_keep_alive : Bool → ℕ → Helper → Starting → Starting
send_keep_alive arrives n h s = if arrives then s else record s {
  helpers = remove_at n s.helpers;
  closed = if h.cancelled then s.closed else true;
}

-- A tick of healthCheckLoop, whose reports arrive if its connection stands.
unfoldable pub health_check_loop : (TunnelConfig → Bool) → Helper → Starting → Starting
health_check_loop reachable h s =
    if h.cancelled || s.closed
    then s
    else record s { reports = s.reports ++ health_round reachable s.client.client.cfg.tunnels }

-- A turn of reloadLoop, which `select` may give it also when its context is cancelled.
unfoldable pub take_turn :
    Option ClientConfig → (TunnelConfig → Option ℕ) → Helper → Starting → Starting
unfolding reload_loop
take_turn loaded listen h s = record s { client = reload_loop loaded listen s.client }

pub data Event : Type 0 where
  passes : (time : ℕ) → Event
  dials : (random : List ℕ) (answer : Answer) (listen : TunnelConfig → Option ℕ) → Event
  wakes loses server_closes signals : Event
  keeps : (n : ℕ) (arrives : Bool) → Event
  checks : (n : ℕ) (reachable : TunnelConfig → Bool) → Event
  turns : (n : ℕ) (loaded : Option ClientConfig) (listen : TunnelConfig → Option ℕ) → Event
  sees_end : (n : ℕ) → Event

abbrev pub is_kind : Kind → Kind → Bool
is_kind keep_alive keep_alive = true
is_kind health_check health_check = true
is_kind reloads reloads = true
is_kind _ _ = false

-- What the n-th goroutine does, if it is of that kind.
abbrev pub at_helper : Kind → ℕ → (Helper → Starting → Starting) → Starting → Starting
at_helper kind n act s = elim (get_elem? s.helpers n) [
  | none ↦ s
  | some h ↦ if is_kind kind h.kind then act h s else s
]

abbrev pub when_dialling : Phase → (Starting → Starting) → Starting → Starting
when_dialling dialling act s = act s
when_dialling _ act s = s

abbrev pub when_up : Phase → (Starting → Starting) → Starting → Starting
when_up up act s = act s
when_up _ act s = s

abbrev pub wake : Phase → Starting → Starting
wake (sleeping until) s = if leb until s.now then record s { phase = dialling } else s
wake _ s = s

-- `<-ctx.Done()`
abbrev pub end_helper : ℕ → Starting → Starting
end_helper n s = elim (get_elem? s.helpers n) [
  | none ↦ s
  | some h ↦ if h.cancelled then record s { helpers = remove_at n s.helpers } else s
]

module _ (crypto : Crypto) (auth : Authenticator) where
  unfoldable pub step : Event → Starting → Starting
  unfolding dial lose send_keep_alive health_check_loop take_turn trigger_reload
  step (passes time) s = record s { now = s.now + time }
  step (dials random answer listen) s =
      when_dialling s.phase (dial crypto auth random answer listen) s
  step wakes s = wake s.phase s
  step loses s = if s.closed then when_up s.phase lose s else s
  step server_closes s = record s { closed = true }
  step signals s = record s { client = trigger_reload s.client }
  step (keeps n arrives) s = at_helper keep_alive n (send_keep_alive arrives n) s
  step (checks n reachable) s = at_helper health_check n (health_check_loop reachable) s
  step (turns n loaded listen) s = at_helper reloads n (take_turn loaded listen) s
  step (sees_end n) s = end_helper n s

  unfoldable pub run : List Event → Starting → Starting
  unfolding step
  run [] s = s
  run (e ∷ l) s = run l (step e s)

-- One signal SIGHUP after the other.
unfoldable pub handle_signals : ℕ → Running → Running
unfolding trigger_reload
handle_signals zero r = r
handle_signals (suc n) r = handle_signals n (trigger_reload r)
