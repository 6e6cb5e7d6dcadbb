-- ===== src/Registry.antt =====
-- What the server promises of its directory of users, apart from files and paths: a map from user
-- names to accounts, and one operation on it for each handler of servidor_handle.c.
mod Spec
pub mod Cases
pub mod View
pub mod Deed
pub use Spec.*
