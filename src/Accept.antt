-- ===== src/Accept.antt =====
-- How servidor.c hands an accepted socket to a thread: the loop of `main` and the first lines of
-- `tratar_peticion`. They share `sc`, which `main` overwrites at each round, and `mensaje_no_copiado`,
-- under `mutex` and `cond_mensaje`. Each step is one statement; any thread may take the next one.
mod Defs
pub mod Invariant
pub mod Copies
unfoldable pub use Defs.*
