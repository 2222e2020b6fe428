-- ===== src/Irc.antt =====
-- src/irc.c: what is sent to the server, and the lines that are read from it.
pub mod Send
pub mod Read
pub mod Parse
pub mod Userinfo
pub mod Slices
pub mod Handlers
pub mod Lines
mod Offsets
pub mod Notice
pub mod Connection
pub mod Outage
pub mod Silence
pub mod Targets
mod Samples
mod Outages
