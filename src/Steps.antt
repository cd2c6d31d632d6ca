-- ===== src/Steps.antt =====
-- The steps of a pipeline: src/Steps and src/StepLibrary.
pub mod Send
pub mod Copying
pub mod FanOut
pub mod PassThru
pub mod RoundRobin
pub mod Step
pub mod Merge
pub mod Shuffler
pub mod Leaker
pub mod Stopper
pub mod Resources
pub mod Mocks
pub mod Configuration
pub mod SendToQueue
pub mod InputQueue
pub mod Joined
pub mod Builder
pub mod Tee
pub mod Asio
pub mod Multicast
pub mod Heartbeat
pub mod Pending
pub mod Analyzer
pub mod Threaded
mod Examples
mod CopyExamples
mod JoinedExamples
