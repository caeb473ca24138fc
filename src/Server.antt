-- ===== src/Server.antt =====
-- pkg/server: logins, sessions and tunnels.
pub mod Live
pub mod Login
pub mod Session
pub mod Connections
pub mod Sample
pub mod Start
pub mod Status
mod Tests
