-- ===== src/Core.antt =====
-- cpp/xhook/xh_core.c: the registry of hooks, the refresh of the map of images, and the life cycle
-- of the library.
mod Examples
pub mod State
pub mod Tree
pub mod Registry
pub mod Select
pub mod Guard
pub mod Refresh
pub mod Lifecycle
pub mod Interface
pub mod Thread
pub mod System
