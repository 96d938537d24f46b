-- ===== src/Transcript.antt =====
-- lib/agents/streamMessagesToUi.ts: from the SDK's messages to the dashboard's transcript.
pub mod Sdk
pub mod Tools
pub mod Diffs
pub mod Content
pub mod Merge
pub mod Stream
mod Tests
