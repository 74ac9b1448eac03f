-- ===== src/System.antt =====
-- The parts together: the command line, the daemon and the kernel module of Projet.
pub mod Requests
pub mod Control
pub mod Modes
pub mod Replies
pub mod Start
pub mod Stop
pub mod Controller
