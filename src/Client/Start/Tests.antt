-- ===== src/Client/Start/Tests.antt =====
-- A client that is refused once and then keeps a connection until a keep-alive fails.
use tbore.Base.{
  ℕ, ◌+◌, ◌*◌, ◌≤◌, ◌≡◌, refl, ◌⊎◌, ◌++◌, length, string_eq, true, false, List, [], ◌∷◌, Option,
  none,
}
use tbore.Auth.Blocker.{second}
use tbore.Auth.Sample.Blocker.{toy_crypto, server_auth}
use tbore.Config.{TunnelConfig}
use tbore.Client.Sample.{client}
use tbore.Client.Reloads.{Running}
use tbore.Client.Start.{
  reloads, dialling, up, Helper, keep_alive, Starting, start, Answer, retry, Event, passes, dials,
  wakes, loses, keeps, sees_end, signals, step, run, handle_signals,
}
use tbore.Client.Start.Rate.{dials_spaced}
use tbore.Client.Start.Helpers.{working, most, is_up, ends, helpers_bounded}
use tbore.Client.Start.Recovery.{failed_keep_alive_redials}

abbrev running : Running
running = record { client = client; reload_chan = false }

abbrev no_server : Answer
no_server = record {
  took = second;
  reached = false;
  fingerprint = "";
  lets_in = false;
  takes_info = false;
}

abbrev server : Answer
server = record {
  took = second;
  reached = true;
  fingerprint = "SHA256:abc";
  lets_in = true;
  takes_info = true;
}

abbrev no_port : TunnelConfig → Option ℕ
no_port t = none

abbrev history : List Event
history =
    dials [] no_server no_port
    ∷ wakes
    ∷ passes retry
    ∷ wakes
    ∷ dials [] server no_port
    ∷ keeps 0 true
    ∷ []

dials_spaced_example :
    100 + retry * length (run toy_crypto server_auth history (start 100 running)).dials
    ≤ (run toy_crypto server_auth history (start 100 running)).now + retry
dials_spaced_example = dials_spaced toy_crypto server_auth history 100 running

helpers_bounded_example :
    let s = run toy_crypto server_auth history (start 100 running) in
    (working reloads s.helpers ≤ most s.phase)
    × ((is_up s.phase ≡ true)
        ⊎ ((run toy_crypto server_auth (ends (length s.helpers)) s).helpers ≡ []))
helpers_bounded_example = helpers_bounded toy_crypto server_auth history 100 running reloads

abbrev keeper : Helper
keeper = record { kind = keep_alive; cancelled = false }

abbrev connected : Starting
connected = record (start 100 running) { phase = up; ssh_client = true; helpers = keeper ∷ [] }

failed_keep_alive_redials_example :
    ((run toy_crypto server_auth
        (keeps 0 false
          ∷ ((signals ∷ []) ++ (loses ∷ passes retry ∷ ((sees_end 0 ∷ []) ++ (wakes ∷ [])))))
        connected).phase
      ≡ dialling)
    × ((run toy_crypto server_auth
          (keeps 0 false
            ∷ ((signals ∷ []) ++ (loses ∷ passes retry ∷ ((sees_end 0 ∷ []) ++ (wakes ∷ [])))))
          connected).ssh_client
        ≡ false)
failed_keep_alive_redials_example =
    failed_keep_alive_redials toy_crypto server_auth 0 keeper (signals ∷ []) (sees_end 0 ∷ [])
      connected refl refl refl refl (tt, tt) (tt, tt)

two_dials : length (run toy_crypto server_auth history (start 100 running)).dials ≡ 2
unfolding run step string_eq
two_dials = refl

-- Signals that come before the loop has a turn count once.
signalled_twice : (handle_signals 2 running).reload_chan ≡ true
unfolding handle_signals
signalled_twice = refl
