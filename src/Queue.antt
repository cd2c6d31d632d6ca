-- ===== src/Queue.antt =====
-- The queue itself: src/HighQueue/details/HQHeader.cpp, HQEntry.hpp and HQEntryAccessor.hpp hold what
-- the threads share, src/HighQueue/Producer.cpp, Consumer.cpp, Connection.cpp and
-- MultiQueueConsumer.cpp work on it.
pub mod Header
pub mod Producer
pub mod Consumer
pub mod Connection
pub mod MultiQueue
pub mod Window
pub mod Look
pub mod Round
pub mod Publish
pub mod Consume
pub mod Waiting
pub mod Fifo
pub mod Setup
pub mod Settled
pub mod Interleaving
pub mod Fixture
mod Examples
