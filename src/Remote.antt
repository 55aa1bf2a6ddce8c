-- ===== src/Remote.antt =====
-- src/android_tv_remote.cpp: `AndroidTvRemote::Impl` as a state with one function for each handler.
pub mod State
pub mod Connection
pub mod Handlers
pub mod Api
pub mod Machine
pub mod Counts
pub mod Invariant
pub mod Stale
pub mod Voice
pub mod Credentials
pub mod Writing
pub mod Reading
pub mod Opening
pub mod Progress
pub mod Quiet
pub mod Silence
pub mod Backoff
pub mod Callbacks
pub mod View
