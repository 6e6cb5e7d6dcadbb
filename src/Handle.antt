-- ===== src/Handle.antt =====
-- servidor_handle.c: the operations on the directory `./database/`, in which the server keeps its
-- users. Each returns the code that goes to the client and the state of the file system.
pub mod Paths
pub mod Account
pub mod Purge
pub mod Listing
pub mod Places
pub mod Access
pub mod Refines
pub mod Unregister
pub mod Standing
pub mod Writing
pub mod Layout
pub mod Tidy
pub mod Reliable
pub mod Keeping
pub mod Contact
pub mod GetFile
pub mod Names
pub mod ListUsers
pub mod ListContent
