-- ===== src/Handle/Unregister.antt =====
-- What `remove_files_in_directory` and `handle_unregister` do to the tree and to the registry.
mod Deletion
pub mod Frame
pub mod Clean
pub mod Accounts
pub mod Ends
pub mod Losses
pub use Deletion.{under, OnlyDeletes, Fits}
