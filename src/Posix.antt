-- ===== src/Posix.antt =====
-- The calls of the C library and of the operating system that servidor_handle.c and servidor.c make
-- on the file system, over an unknown state. They are not code of the repository: `FileSystem` names
-- the calls, and `IsLawful` states what POSIX documents of them.
mod Defs
pub mod Memory
pub use Defs.*
