-- ===== src/Convstate.antt =====
-- The state of a conversation as clients see it, of lib/convstate: the tasks derived from the
-- conversation, and the emitter that stores the changes, numbers them and replays them.
pub mod Types
pub mod Tasks
pub mod Replay
pub mod Emitter
