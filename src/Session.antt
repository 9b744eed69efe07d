-- ===== src/Session.antt =====
-- session.rs: the state of one session and how an event of the agent changes it. The fields of
-- `SessionRuntime` that no event touches are left out (the mode, the runner, the channel, the
-- request sequence, the time of parking), and a handle of a task is only whether there is one.
pub mod Children
pub mod Model
pub mod Entries
pub mod Thinking
pub mod Updates
pub mod Events
pub mod Bounds
pub mod Settled
mod Tests
