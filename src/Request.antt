-- ===== src/Request.antt =====
-- servidor.c: `tratar_peticion`, the thread of one request. It is a tree of its calls, each with what
-- follows for each of their results, so that the steps of several threads can be interleaved.
mod Tree
mod Calls
mod Replies
mod Dispatch
unfoldable pub use Tree.*
unfoldable pub use Calls.*
unfoldable pub use Replies.*
unfoldable pub use Dispatch.*
pub mod Rules
pub mod Obedience
pub mod Whole
pub mod Threads
pub mod Order
pub mod Exclusion
pub mod Release
pub mod Stuck
pub mod Closed
pub mod FileLines
pub mod Buffers
pub mod Serve
pub mod Opening
pub mod Orders
pub mod Others
pub mod Refused
pub mod UserList
pub mod UserListing
pub mod ContentListing
pub mod Accounts
pub mod ListFiles
pub mod Changes
pub mod History
pub mod Evolution
pub mod Tidiness
pub mod Peer
pub mod Meeting
pub mod Clients
pub mod Session
