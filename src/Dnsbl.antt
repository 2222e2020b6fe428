-- ===== src/Dnsbl.antt =====
-- src/dnsbl.c: the queries for a user's address in each blacklist, their answers, and the report of
-- an open proxy.
pub mod Lookup
pub mod Types
pub mod Answer
pub mod Report
pub mod Listing
mod Samples
