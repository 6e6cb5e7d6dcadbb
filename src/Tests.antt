-- ===== src/Tests.antt =====
-- The theorems at work on concrete inputs.
mod Data
mod Handlers
mod Queries
mod Wire
mod UserList
mod ContentList
mod Loop
mod Play
mod Turns
mod Requests
mod Histories
mod Sockets
mod Starts
mod Meeting
mod Service
