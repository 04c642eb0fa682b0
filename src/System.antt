-- ===== src/System.antt =====
-- The whole of qa-sys: the service, the consumer of the vote topic, the job that moves read counts,
-- and the gateway in front.
pub mod Calm
pub mod Posts
pub mod Authorship
pub mod Served
pub mod Untouched
pub mod Calls
pub mod Posting
pub mod Requests
pub mod Reach
pub mod Topic
pub mod History
pub mod Ownership
pub mod Authentication
pub mod Refusal
pub mod Vote
pub mod Titles
