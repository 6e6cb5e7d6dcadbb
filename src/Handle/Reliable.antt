-- ===== src/Handle/Reliable.antt =====
-- The handlers on a system whose calls fail for no reason but the tree.
pub mod Does
pub mod Names
pub mod Contacts
pub mod Files
pub mod Removal
pub mod Queries
