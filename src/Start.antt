-- ===== src/Start.antt =====
-- servidor.c: `main` up to its loop.
mod Defs
pub mod Outcomes
pub mod Accounts
pub mod Deaf
pub mod Directory
pub mod Tidiness
pub mod Service
unfoldable pub use Defs.*
