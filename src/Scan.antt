-- ===== src/Scan.antt =====
-- src/scan.c: one scan of a connecting user, from the connection notice to the last callback.
pub mod Setup
pub mod Kline
pub mod Expand
pub mod Banned
pub mod Finish
pub mod Callbacks
pub mod Connect
pub mod Tasks
pub mod Cached
pub mod Exempt
pub mod Manual
pub mod ManualTasks
pub mod Life
pub mod Acts
pub mod Answers
pub mod Steps
pub mod Lifetime
mod Samples
