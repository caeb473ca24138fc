-- ===== src/Auth.antt =====
-- pkg/auth: the login of a client and the protection against password guessing.
pub mod Record
pub mod Lru
pub mod Store
pub mod Blocker
pub mod Authenticator
pub mod Keys
pub mod Sample
mod Tests
