-- ===== src/Daemon.antt =====
-- Projet/daemon/daemon.c, the user-space daemon: its parts, and what they share.
mod World
pub mod Lcd
pub mod Fan
pub mod Gpio
pub mod Buttons
pub mod Messages
pub mod Events
pub mod Startup
pub mod Body
pub mod Threads
pub mod Locking
unfoldable pub use World.*
