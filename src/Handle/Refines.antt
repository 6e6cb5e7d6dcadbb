-- ===== src/Handle/Refines.antt =====
-- The handlers of servidor_handle.c against the operations of the registry.
pub mod Register
pub mod Disconnect
pub mod Delete
pub mod Publish
pub mod Connect
