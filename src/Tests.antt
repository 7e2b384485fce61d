-- ===== src/Tests.antt =====
-- The theorems at concrete inputs.
mod Deliveries
mod Settings
mod Bots
mod Answers
mod Requests
mod Links
mod Messages
mod Polls
mod Files
