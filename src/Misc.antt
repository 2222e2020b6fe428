-- ===== src/Misc.antt =====
-- src/misc.c: `dissect_time`, the text of a length of time.
pub mod Time
mod Samples
