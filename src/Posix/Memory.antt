-- ===== src/Posix/Memory.antt =====
-- A file system in memory: a tree of places that starts with an empty root.
mod Writes
mod Walk
mod Lawful
pub use Writes.{Tree, look}
unfoldable pub use Writes.{empty_tree}
pub use Walk.{walk}
unfoldable pub use Lawful.{memory}
pub use Lawful.{memory-IsLawful, memory-IsReliable, memory-IsRelative}
