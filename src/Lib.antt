-- ===== src/Lib.antt =====
-- tbore: a reverse tunnel over SSH, its verification library.
--
-- A server (pkg/server) accepts clients (pkg/client). A client logs in with a challenge and the
-- keyed hash of it under a shared token (pkg/auth/authenticator.go) and asks for ports; for each one
-- the server opens a listener and forwards its connections to the client. Both sides read a
-- configuration (pkg/config). An address that fails too often to log in is blocked for a while
-- (pkg/auth/blocker.go): its failures stand in a bbolt database behind an LRU cache.
--
-- The files and the code:
--   Config: the records, defaults and checks of pkg/config/config.go and errors.go
--     (set_server_defaults, validate_server, is_valid_port, validate_client). Config/Load:
--     LoadServerConfig and LoadClientConfig over the file system and YAML.
--   Auth/Record, Auth/Lru, Auth/Blocker: pkg/auth/blocker.go. Lru is lruCache: a map from keys to
--     the addresses of list elements, and the list. Blocker is AuthBlocker with getRecord, putRecord,
--     IsBlocked, RecordFailure, ResetFailure, BlockedCount and cleanExpired. Blocker/Spec is an
--     unbounded memory of failures by address, with no cache, no database and no encoding.
--     Blocker/Overlap is RecordFailure in two steps, for calls that overlap where nothing is held
--     of the address, so that each has a record of its own. Blocker/Lifecycle is
--     cleanLoop and Close, over a database that can be closed.
--   Auth/Store: what is asked of bbolt and encoding/json, with the laws that the theorems use
--     (IsReliable: a write that commits is read back, JSON reads back what it wrote).
--   Auth/Authenticator: pkg/auth/authenticator.go over SHA-256, HMAC and a random source.
--   Auth/Keys: pkg/auth/keys.go over RSA, PEM and the file system.
--   Server/Login: the PasswordCallback of Start and the check before the handshake. Server/Start:
--     NewServer. Server/Session: ConnectionInfo with its tunnels, and the handlers of
--     handleConnection for each request. Server/Connections: the semaphore and the counter of a
--     tunnel in acceptClientConnections and handleClientConnection, with the steps of the goroutines
--     in any order (Reach). Server/Live: the accept loop of Start with the semaphore of all
--     connections, handleConnection as the events of its goroutines, and GetStatus; it uses Login for
--     the passwords and Session for the requests. Server/Status: the totals, the lines (Page) and
--     the durations (Duration) of pkg/server/status.go.
--   Client/Dial, Client/Tunnels, Client/Messages: the password and the host key check of Start,
--     createTunnel, ReloadTunnels and GetTunnelStatus, and the messages to the server, of
--     pkg/client/client.go. Client/Reloads: TriggerReload, reloadLoop and the connections of Start,
--     as events in any order; Names, Served and Stale are about the tunnels that a client has
--     then. Client/Start: the loop of Start with its waits, beside sendKeepAlive,
--     healthCheckLoop, reloadLoop and handleSignals; its steps use those of Reloads.
--   Forward: copyBuffer, copyBufferWithTimestamp and the watch of handleClientConnection in
--     pkg/server/server.go, and copyBuffer and copyBufferRW of pkg/client/client.go. Forward/Channel:
--     the channel that handleClientConnection opens, and where handleServerChannels and
--     handleRemoteConnection dial. Forward/Relay: both copies of a connection at once, with the half
--     close of their ends. Forward/Pool: the buffers of the copies on the server.
--   Main: tbore.go, with main, runServer, runClient, the commands of the client's control socket
--     (handle_command) and the commands that use the sockets (run_reload, run_client_status,
--     run_status). Main/Serving: the accept loops of both sockets, that of the
--     client among its other goroutines, and the usage.
--   Auth/Sample: a database, files, keys and a hash in memory that meet the laws. The modules Tests
--     apply the theorems to concrete inputs.
--
-- How the code is read. A method is a function from the state to the state and its result; the time
-- that it reads from the clock is an argument. A time is the number of nanoseconds since Go's zero
-- time. An int is an integer whose arithmetic wraps at 64 bits where the code computes with it; a
-- uint32 is a natural number. A Go map is an association list (Base/GoMap), in any order. A pointer
-- that is shared is an address into a heap, as are the tunnels of a session. Calls of one blocker or
-- one session follow one another; the mutex of the cache makes its methods single steps. All loops are
-- structural recursion, so nothing runs on fuel. IsReliable has the limit up to which the JSON of a time
-- exists, the year 10000 in Go, and the theorems on the blocker ask that blocks end before it. IsExact
-- has the limit up to which package time computes whole units of a duration exactly.
--
-- The counter of a tunnel's connections is changed without a lock: what a goroutine reads of it before it
-- writes is an argument of the step (`seen`), and any value. Where goroutines share state, a step is what one of them does between two waits, and the theorems
-- hold for every order of the steps (Server/Connections, Server/Live,
-- Client/Reloads, Client/Start, Forward/Relay, Forward/Pool, Auth/Blocker/Lifecycle); one order is
-- in Server/Connections/Race only, that of a tunnel which is cancelled between the acceptance of a
-- connection and the look of its goroutine at the map of tunnels.
--
-- Not modelled: the SSH protocol and the sockets; what sync.Pool does, beyond that a pool with New does
-- not give nil; the requests on a channel, which are refused; calls of RecordFailure that overlap on
-- one shared record, whose fields they change without a lock; the count of the goroutines of
-- handleServerChannels and createTunnel, which get no context of their connection; the borders of the status page and points of time as text;
-- flag parsing and log messages.
pub mod Base
pub mod Config
pub mod Auth
pub mod Client
pub mod Server
pub mod Forward
pub mod Main
