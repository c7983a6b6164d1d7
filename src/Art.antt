-- ===== src/Art.antt =====
-- cpp/art: hooking methods of the Android runtime.
pub mod Modifiers
pub mod State
pub mod Live
pub mod Runs
pub mod Members
pub mod Jni
pub mod Symbols
pub mod Suspend
pub mod Method
pub mod Clone
pub mod Hook
pub mod Layout
pub mod Load
pub mod Still
mod Device
mod Examples
