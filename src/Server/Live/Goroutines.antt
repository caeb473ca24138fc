-- ===== src/Server/Live/Goroutines.antt =====
-- What the semaphore, the goroutines and the map of sessions of a running server have in common.
use tbore.Base.{
  ℕ, ◌+◌, ◌≡◌, refl, ap, ◌∙◌, nat_eq, string_eq, String, length, get_elem?, length-remove_at, true,
  List, Option, some, arith, Option-cases, Bool-cases, inl, inr,
}
use tbore.Base.Int.{pos, pos_part, neg_part, ◌≤ℤ◌}
use tbore.Base.GoMap.{
  NodupKeys, lookup, lookup-insert, lookup-delete, insert-NodupKeys, delete-NodupKeys,
}
use tbore.Config.{ServerConfig}
use tbore.Auth.Store.{Bucket, Json}
use tbore.Auth.Authenticator.{Crypto, Authenticator}
use tbore.Server.Login.{extract_ip, pre_handshake}
use tbore.Server.Session.{Session, new_session, end_session}
use tbore.Server.Session.Invariant.{is_some}
use tbore.Server.Live.Requests.{handle_request-Fits}
use tbore.Server.Session.Requests.{Request, Formats, handle_request}
use tbore.Server.Connections.{Semaphore, IsSemaphore}
use tbore.Server.Live.{
  Running, accept, release_conn, check_addr, try_password, fail_handshake, establish, serve_request,
  end_live,
}
use tbore.Server.Live.Keys.{is_some-remove_at}

abbrev pub goroutines : {B : Bucket} {W : Semaphore} → Running B W → ℕ
goroutines t = length t.opening + length t.shaking + length t.live

module _ {B : Bucket} {W : Semaphore} (laws : IsSemaphore W) (cfg : ServerConfig) where
  -- The semaphore is held once by every goroutine, and by `ending` that are about to release it.
  pub record Holds (ending : ℕ) (t : Running B W) : Type 0 where
    pub held : laws.held t.sem ≡ ending + goroutines t
    pub size : laws.size t.sem ≡ cfg.max_connections
    pub within : pos (laws.held t.sem) ≤ℤ cfg.max_connections
    pub unique : NodupKeys t.active_conns
    pub listed :
        (id : String)
        → is_some (lookup id t.active_conns) ≡ true
        → is_some (lookup id t.live) ≡ true
    pub fit :
        (a : ℕ) (s : Session)
        → lookup a t.sessions ≡ some s
        → pos (length s.tunnels) ≤ℤ cfg.max_tunnels

  -- What an operation that may panic gives, if it does not.
  abbrev pub Goes : Option (Running B W) → Type 0
  Goes r = (t' : Running B W) × (r ≡ some t') × Holds 0 t'

  release_conn-Holds : (t : Running B W) → Holds 1 t → Goes (release_conn t)
  unfolding release_conn
  release_conn-Holds t c =
      let (sem', freed, fewer, same) = laws.release t.sem (omega (arith, c.held)) in
      (
        record t { sem = sem' },
        ground (arith, freed),
        record {
          held = omega (arith, fewer, c.held);
          size = same ∙ c.size;
          within = omega (arith, fewer, c.within);
          unique = c.unique;
          listed = c.listed;
          fit = c.fit;
        },
      )

  pub accept-Holds :
      (remote_addr : String) (t : Running B W) → Holds 0 t → Holds 0 (accept remote_addr t)
  unfolding accept
  accept-Holds remote_addr t c = elim (Option-cases (W.try_acquire t.sem)) [
    | inl full ↦ rw (full, accept) c
    | inr (sem', room) ↦
        let (more, same, within) = laws.try_acquire t.sem sem' room in
        rw (room, accept)
          (record {
            held = omega (arith, more, c.held);
            size = same ∙ c.size;
            within = omega (arith, more, within, ap pos_part c.size, ap neg_part c.size);
            unique = c.unique;
            listed = c.listed;
            fit = c.fit;
          })
  ]

  -- Only the sessions that a goroutine writes change, and they keep to their limit.
  same_counts :
      (ending : ℕ) (t t' : Running B W)
      → Holds 0 t
      → t'.sem ≡ t.sem
      → goroutines t ≡ ending + goroutines t'
      → t'.live ≡ t.live
      → t'.active_conns ≡ t.active_conns
      → t'.sessions ≡ t.sessions
      → Holds ending t'
  same_counts ending t t' c sem count live active sessions = record {
    held = rw sem (omega (arith, c.held, count));
    size = rw sem c.size;
    within = rw sem c.within;
    unique = rw active c.unique;
    listed = rw (active, live) c.listed;
    fit = rw sessions c.fit;
  }

  pub check_addr-Goes :
      (json : Json) (split : String → Option String) (n now : ℕ) (t : Running B W)
      → Holds 0 t
      → Goes (check_addr json split n now t)
  unfolding check_addr
  check_addr-Goes json split n now t c = elim (Option-cases (get_elem? t.opening n)) [
    | inl missing ↦ rw (missing, check_addr) (t, refl, c)
    | inr (addr, there) ↦
        let fewer = length-remove_at n t.opening addr there in
        elim (Bool-cases (pre_handshake json (extract_ip split addr) now t.blocker).1) [
          | inl allowed ↦
              rw (there, check_addr, allowed)
                (_, refl, same_counts 0 t _ c refl (omega (arith, fewer)) refl refl refl)
          | inr refused ↦
              rw (there, check_addr, refused)
                (release_conn-Holds _
                  (same_counts 1 t _ c refl (omega (arith, fewer)) refl refl refl))
        ]
  ]

  pub try_password-Holds :
      (json : Json) (crypto : Crypto) (a : Authenticator) (split : String → Option String)
      (n now later : ℕ) (pass : List ℕ) (t : Running B W)
      → Holds 0 t
      → Holds 0 (try_password json crypto a split n now later pass t)
  unfolding try_password
  try_password-Holds json crypto a split n now later pass t c =
      elim (Option-cases (get_elem? t.shaking n)) [
        | inl missing ↦ rw (missing, try_password) c
        | inr (h, there) ↦
            rw (there, try_password)
              (same_counts 0 t _ c refl (omega (arith, length-remove_at n t.shaking h there)) refl
                refl refl)
      ]

  pub fail_handshake-Goes : (n : ℕ) (t : Running B W) → Holds 0 t → Goes (fail_handshake n t)
  unfolding fail_handshake
  fail_handshake-Goes n t c = elim (Option-cases (get_elem? t.shaking n)) [
    | inl missing ↦ rw (missing, fail_handshake) (t, refl, c)
    | inr (h, there) ↦
        rw (there, fail_handshake)
          (release_conn-Holds _ (
            same_counts 1 t _ c refl (omega (arith, length-remove_at n t.shaking h there)) refl refl
              refl))
  ]

  pub establish-Holds :
      (n : ℕ) (session_id : String) (now : ℕ) (t : Running B W)
      → pos 0 ≤ℤ cfg.max_tunnels
      → Holds 0 t
      → Holds 0 (establish n session_id now t)
  unfolding establish lookup new_session
  establish-Holds n session_id now t room c = elim (Option-cases (get_elem? t.shaking n)) [
    | inl missing ↦ rw (missing, establish) c
    | inr (h, there) ↦ elim (Bool-cases h.is_accepted) [
      | inr not_yet ↦ rw (there, establish, not_yet) c
      | inl fine ↦
          rw (there, establish, fine)
            (record {
              held = omega (arith, c.held, length-remove_at n t.shaking h there);
              size = c.size;
              within = c.within;
              unique = insert-NodupKeys session_id t.next t.active_conns c.unique;
              listed = λ id here.
                  ground (arith, lookup-insert id session_id t.next t.active_conns, c.listed id);
              fit = λ b s h'. ground (
                arith,
                lookup-insert b t.next (new_session session_id h.remote_addr now) t.sessions,
                c.fit b s,
                h',
              );
            })
    ]
  ]

  pub serve_request-Holds :
      (F : Formats) (listen : ℕ → Option ℕ) (n : ℕ) (req : Request) (t : Running B W)
      → Holds 0 t
      → Holds 0 (serve_request F cfg listen n req t)
  unfolding serve_request
  serve_request-Holds formats listen n req t c = elim (Option-cases (get_elem? t.live n)) [
    | inl missing ↦ rw (missing, serve_request) c
    | inr ((id, a), there) ↦ elim (Option-cases (lookup a t.sessions)) [
      | inl closed ↦ rw (there, serve_request, closed) c
      | inr (s, stands) ↦
          let s' = (handle_request formats cfg listen req s).0 in
          rw (there, serve_request, stands)
            (record {
              held = c.held;
              size = c.size;
              within = c.within;
              unique = c.unique;
              listed = c.listed;
              fit = λ b r here. ground (
                arith,
                lookup-insert b a s' t.sessions,
                here,
                c.fit b r,
                handle_request-Fits cfg s (c.fit a s stands) formats listen req,
              );
            })
    ]
  ]

  pub end_live-Goes : (n : ℕ) (t : Running B W) → Holds 0 t → Goes (end_live n t)
  unfolding end_live end_session
  end_live-Goes n t c = elim (Option-cases (get_elem? t.live n)) [
    | inl missing ↦ rw (missing, end_live) (t, refl, c)
    | inr ((id, a), there) ↦
        rw (there, end_live)
          (release_conn-Holds _ (record {
            held = omega (arith, c.held, length-remove_at n t.live (id, a) there);
            size = c.size;
            within = c.within;
            unique = delete-NodupKeys id t.active_conns c.unique;
            listed = λ j here. ground (
              arith,
              lookup-delete j id t.active_conns,
              here,
              c.listed j,
              is_some-remove_at j id n a t.live there,
            );
            fit = λ b r here. elim (Option-cases (lookup a t.sessions)) [
              | inl closed ↦ c.fit b r (ground (arith, here, closed))
              | inr (s, stands) ↦ ground (
                arith,
                lookup-insert b a (end_session s) t.sessions,
                here,
                c.fit b r,
                c.fit a s stands,
                stands,
              )
            ];
          }))
  ]
