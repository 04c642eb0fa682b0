-- ===== src/Tests.antt =====
-- Runs of the modelled code of crates/qa-svc and crates/core on concrete inputs.
pub mod Messages
pub mod Remotes
pub mod Pools
pub mod Startups
pub mod Histories
pub mod Ciphers
pub mod Worlds
pub mod Voting
pub mod Tokens
pub mod Sessions
pub mod Paging
pub mod Posts
pub mod Listing
pub mod Registration
pub mod Gateways
pub mod Requests
pub mod Systems
pub mod Counts
pub mod Ballots
