-- ===== src/Client.antt =====
-- pkg/client: the side that opens the tunnels.
pub mod Dial
pub mod Tunnels
pub mod Reloads
pub mod Start
pub mod Messages
pub mod Sample
mod Tests
