-- ===== src/Server/Tests.antt =====
-- The theorems about the package server, at concrete inputs.
use tbore.Base.{
  ◌∙◌, false, ◌-◌, get_elem?, ℕ, ◌*◌, ◌≤◌, ◌≡◌, refl, inr, ◌==◌, string_eq, nat_eq, if◌then◌else◌,
  length, true, List, [], ◌∷◌, Option, none, some, arith,
}
use mathlib.Core.Option.{none-ne-some}
use tbore.Base.Int.{pos}
use tbore.Base.GoMap.{insert, lookup}
use tbore.Config.{is_valid_port}
use tbore.Auth.Authenticator.{new_authenticator}
use tbore.Auth.Blocker.{AuthBlocker, second, is_blocked, reset_failure}
use tbore.Auth.Blocker.Spec.{blocks}
use tbore.Auth.Blocker.Refinement.{Implements, settings, is_blocked-Implements}
use tbore.Auth.Sample.{year_10000, memory_bucket, record_codec, sample-IsReliable}
use tbore.Auth.Sample.Blocker.{
  fresh_blocker, nothing_stored, fresh_blocker-Implements, nothing_stored-none, toy_crypto,
  server_auth,
}
use tbore.Client.Dial.{auth_string}
use tbore.Server.Login.{password_callback, accepted}
use tbore.Server.Login.Outcome.{is_right, verdict, remember, password_callback-Implements}
use tbore.Server.Login.Handshake.{password_callback-auth_string}
use tbore.Server.Login.Guesses.{Attempt, logins, guesses, IsGuess, guesses_bounded}
use tbore.Server.Sample.{config}
use tbore.Server.Session.{
  TunnelInfo, add_tunnel, Session, ForwardMsg, reply, new_session, put_uint32,
  handle_forward_request, handle_cancel_forward_request, end_session,
}
use tbore.Server.Session.Requests.{Request, Formats, handle_requests}
use tbore.Server.Session.Invariant.{IsValid, IsListen, is_some, add_tunnel-IsValid}
use tbore.Server.Session.Lifetime.{new_session-IsValid, session_lifetime}
use tbore.Server.Status.{row}
use tbore.Server.Status.Page.{lines}
use tbore.Server.Status.Page.Lines.{lines-tunnels}
use tbore.Server.Session.Ports.{uint32, granted-in_range, granted_outside, cancel-forward}

not_blocked : (is_blocked record_codec "10.0.0.1" 10 fresh_blocker).1 ≡ false
unfolding blocks
not_blocked =
    let (same, _) =
      is_blocked-Implements sample-IsReliable (settings fresh_blocker) fresh_blocker nothing_stored
        "10.0.0.1" 10 fresh_blocker-Implements in
    same ∙ ground (arith, nothing_stored-none "10.0.0.1")

abbrev short_pass : Attempt
short_pass = record { now = 10; later = 11; pass = 1 ∷ 2 ∷ [] }

abbrev five_tries : List Attempt
five_tries = short_pass ∷ short_pass ∷ short_pass ∷ short_pass ∷ short_pass ∷ []

short_pass-IsGuess :
    IsGuess (settings fresh_blocker) toy_crypto server_auth year_10000 (500 * second) short_pass
unfolding is_right
short_pass-IsGuess = record {
  early = omega arith;
  recent = omega arith;
  timely = omega arith;
  wrong = refl;
}

guesses_bounded_example :
    guesses (logins record_codec toy_crypto server_auth "10.0.0.1" five_tries (some fresh_blocker))
    ≤ 3
guesses_bounded_example =
    guesses_bounded sample-IsReliable (settings fresh_blocker) toy_crypto server_auth "10.0.0.1"
      (500 * second) five_tries fresh_blocker nothing_stored fresh_blocker-Implements
      (nothing_stored-none "10.0.0.1") (omega arith) (omega arith)
      (
        short_pass-IsGuess,
        (short_pass-IsGuess, (short_pass-IsGuess, (short_pass-IsGuess, (short_pass-IsGuess, tt)))),
      )

password_callback-Implements_example :
    (b' : AuthBlocker memory_bucket) × (password_callback record_codec toy_crypto server_auth
        "10.0.0.1" 10 11
        (1 ∷ [])
        (some fresh_blocker)
      ≡ (some b', verdict toy_crypto server_auth "10.0.0.1" 10 (1 ∷ []) nothing_stored))
    × Implements memory_bucket record_codec (settings fresh_blocker) b' (
        remember
          (settings fresh_blocker)
          toy_crypto
          server_auth
          "10.0.0.1"
          10
          11
          (1 ∷ [])
          nothing_stored)
password_callback-Implements_example =
    password_callback-Implements sample-IsReliable (settings fresh_blocker) toy_crypto server_auth
      fresh_blocker nothing_stored "10.0.0.1" 10 11 (1 ∷ []) (omega arith) fresh_blocker-Implements

abbrev random_bytes : List ℕ
random_bytes =
    0 ∷ 17 ∷ 34 ∷ 51 ∷ 68 ∷ 85 ∷ 102 ∷ 119 ∷ 136 ∷ 153 ∷ 170 ∷ 187 ∷ 204 ∷ 221 ∷ 238 ∷ 255 ∷ []

password_callback-auth_string_example :
    let a = new_authenticator toy_crypto (1 ∷ 2 ∷ []) in
    let pass = auth_string toy_crypto a random_bytes in
    (password_callback record_codec toy_crypto a "10.0.0.1" 10 11 pass (some fresh_blocker) ≡ (
      some (reset_failure "10.0.0.1" (is_blocked record_codec "10.0.0.1" 10 fresh_blocker).0),
      accepted,
    ))
    × (password_callback {B = memory_bucket} record_codec toy_crypto a "10.0.0.1" 10 11 pass none
        ≡ (none, accepted))
password_callback-auth_string_example =
    password_callback-auth_string record_codec toy_crypto (1 ∷ 2 ∷ []) random_bytes "10.0.0.1" 10 11
      fresh_blocker refl not_blocked

abbrev fresh_session : Session
fresh_session = new_session "sess_1" "10.0.0.1:4000" 5

abbrev ask_2000 : ForwardMsg
ask_2000 = record { addr = "0.0.0.0"; port = 2000 }

abbrev free_port : ℕ
free_port = 40_000

-- A system on which 2000 and, for port 0, 40000 can be bound.
abbrev grant : ℕ → Option ℕ
grant p = if p == 0 then some 40_000 else if p == 2000 then some 2000 else none

grant-IsListen : IsListen grant fresh_session
unfolding new_session
grant-IsListen = record { asked = λ p q h nonzero. ground arith; free = λ p q h. refl }

abbrev toy_formats : Formats
toy_formats = record {
  forward = λ bytes. record { addr = "0.0.0.0"; port = length bytes };
  client_info = λ bytes. none;
  tunnel_info = λ bytes. none;
  health_report = λ bytes. some (record { port = length bytes; status = pos 2 });
  health_info = λ info. some [];
  format_addr = λ host port. host;
}

abbrev forward_request : Request
forward_request = record { kind = "tcpip-forward"; payload = [] }

abbrev report_request : Request
report_request = record { kind = "tbore-health-report"; payload = [] }

abbrev refuse : ℕ → Option ℕ
refuse p = none

refuse-IsListen : (s : Session) → IsListen refuse s
refuse-IsListen s = record {
  asked = λ p q h nonzero. absurd (none-ne-some q h);
  free = λ p q h. absurd (none-ne-some q h);
}

abbrev requests : List ((ℕ → Option ℕ) × Request)
requests = (grant, forward_request) ∷ (refuse, forward_request) ∷ (refuse, report_request) ∷ []

session_lifetime_example :
    IsValid config (handle_requests toy_formats config requests fresh_session)
    × ((end_session (handle_requests toy_formats config requests fresh_session)).listening ≡ [])
session_lifetime_example =
    session_lifetime toy_formats config "sess_1" "10.0.0.1:4000" 5 requests (omega arith)
      (grant-IsListen, (refuse-IsListen _, (refuse-IsListen _, tt)))

abbrev with_2000 : Session
with_2000 = (handle_forward_request config grant ask_2000 fresh_session).0

granted_2000 :
    handle_forward_request config grant ask_2000 fresh_session
    ≡ (with_2000, record { accepted = true; payload = put_uint32 2000 })
unfolding handle_forward_request nat_eq is_valid_port new_session
granted_2000 = refl

granted-in_range_example :
    (1024 ≤ 2000)
    × (2000 ≤ 2048)
    × (uint32 (put_uint32 2000) ≡ 2000)
    × (is_some (lookup 2000 with_2000.tunnels) ≡ true)
granted-in_range_example =
    granted-in_range config grant ask_2000 fresh_session with_2000 (put_uint32 2000) grant-IsListen
      (λ p. absurd (omega (arith, p))) (omega arith) granted_2000

fresh_session-IsValid : IsValid config fresh_session
fresh_session-IsValid = new_session-IsValid config "sess_1" "10.0.0.1:4000" 5 (omega arith)

cancel-forward_example :
    ((handle_cancel_forward_request ask_2000 with_2000).1.accepted ≡ true)
    × ((handle_cancel_forward_request ask_2000 with_2000).0.tunnels ≡ fresh_session.tunnels)
    × ((handle_cancel_forward_request ask_2000 with_2000).0.listening ≡ fresh_session.listening)
cancel-forward_example =
    cancel-forward config grant ask_2000 fresh_session with_2000 (put_uint32 2000)
      fresh_session-IsValid grant-IsListen (λ p. absurd (omega (arith, p))) granted_2000

abbrev ask_any : ForwardMsg
ask_any = record { addr = "0.0.0.0"; port = 0 }

abbrev ask_free : ForwardMsg
ask_free = record { addr = "0.0.0.0"; port = free_port }

granted_outside_example :
    (handle_forward_request config grant ask_free fresh_session ≡ (fresh_session, reply false))
    × ((handle_forward_request config grant ask_any fresh_session).1.accepted ≡ true)
    × (is_some
          (lookup free_port (handle_forward_request config grant ask_any fresh_session).0.tunnels)
        ≡ true)
granted_outside_example =
    granted_outside config grant ask_any ask_free fresh_session refl (λ p. omega (arith, p))
      (unfold new_session in omega arith) (unfold nat_eq in refl) (inr (omega arith))

with_2000-IsValid : IsValid config with_2000
unfolding handle_forward_request nat_eq is_valid_port new_session
with_2000-IsValid =
    add_tunnel-IsValid config fresh_session fresh_session-IsValid ask_2000 2000 refl (omega arith)

at_2000 : lookup 2000 with_2000.tunnels ≡ some 0
unfolding handle_forward_request nat_eq is_valid_port new_session add_tunnel insert lookup
at_2000 = refl

lines-tunnels_example :
    (length (lines (λ n. "busy") (λ n. "tunnel") with_2000) ≡ length with_2000.tunnels)
    × (x : TunnelInfo) × (lookup 0 with_2000.heap ≡ some x)
    × (k : ℕ) × (get_elem? (lines (λ n. "busy") (λ n. "tunnel") with_2000) k
        ≡ some (record {
          is_last = k == length with_2000.tunnels - 1;
          remote_port = 2000;
          texts = row (λ n. "busy") (λ n. "tunnel") x;
        }))
lines-tunnels_example =
    lines-tunnels (λ n. "busy") (λ n. "tunnel") config with_2000 2000 0 with_2000-IsValid at_2000
