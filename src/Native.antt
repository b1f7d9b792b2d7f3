-- ===== src/Native.antt =====
-- lib/native: the conversation with an agent, in child modules.
pub mod Types
pub mod Requests
pub mod MessageLog
pub mod State
pub mod Limit
pub mod Sink
pub mod Turn
pub mod Continue
pub mod Respond
pub mod Lifecycle
pub mod Configure
pub mod Steps
