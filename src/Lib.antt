-- ===== src/Lib.antt =====
-- HighQueue, a message queue for C++ pipelines, and the steps that are joined by it.
--
-- A pool of memory blocks (src/HighQueue/details/HQMemoryBlockPool.cpp,
-- src/HighQueue/MemoryPool.cpp) hands blocks to messages (src/HighQueue/Message.hpp). A queue is a
-- header (src/HighQueue/details/HQHeader.cpp) with a ring of entries, each with a message. A
-- producer (src/HighQueue/Producer.cpp) swaps the block of its message with that of an entry, the
-- consumer (src/HighQueue/Consumer.cpp) swaps it out again. A connection
-- (src/HighQueue/Connection.cpp) sets the queue up. Steps (src/Steps, src/StepLibrary) handle a
-- message and send it on.
--
-- Message models the handle, with the bytes of the process as a function of the address.
-- Memory.Allocator and Memory.Layout model HQAllocator.hpp and where a queue's parts stand;
-- Memory.BlockPool the pool, whose free list runs through the words of the blocks. Wait models the
-- order of pauses of a WaitStrategy. Queue.Header, Queue.Producer, Queue.Consumer, Queue.Connection
-- and Queue.MultiQueue have a function for each operation of the class of that name; Queue.Window,
-- Queue.Look, Queue.Round, Queue.Publish, Queue.Consume, Queue.Fifo and Queue.Setup are about them.
-- Steps.Step, Steps.Merge, Steps.Shuffler, Steps.Leaker, Steps.Stopper and Steps.Resources model
-- Step.cpp, OrderedMerge.cpp, Shuffler.cpp, Leaker.cpp, Stopper.cpp and SharedResources.cpp.
-- Steps.Merge.Setup, Steps.Merge.Start and Steps.Pending are about how a merge starts,
-- Steps.Merge.Run about a stream of messages that comes to it, Steps.Multicast.Link about what goes
-- from a sender to a receiver; Steps.Analyzer is MockMessageAnalyzer.cpp, Steps.Threaded is
-- ThreadedStepToMessage.cpp, Common.Log is src/Common/Log.cpp. Queue.Interleaving cuts publish and
-- tryGetNext at their shared accesses, with a lock that one producer holds at a time.
-- Steps.Merge.Held, Steps.Merge.Taken and Steps.Merge.Account follow each message that comes to a
-- merge, Steps.Resources.Calls, Steps.Resources.Ending and Steps.Resources.Creation the calls of
-- createResources, and Queue.Settled what createLocal leaves. Steps.Copying models
-- StepToMessage.cpp and the copies that Steps.FanOut, Steps.RoundRobin and Steps.PassThru send
-- (FanOut.cpp, RoundRobin.cpp, BinaryPassThru.cpp, CopyPassThru.hpp, ForwardPassThru.cpp).
-- Steps.Mocks models the test messages with their producer and consumer (MockMessage.hpp,
-- GapMesssage.hpp, MockMessageProducer.hpp and cpp, MockMessageConsumer.hpp and cpp).
-- Steps.Configuration is Configuration.cpp; Steps.Builder is Builder.cpp and StepFactory.cpp, where
-- a step is the number of its making and the tree decides the order; Steps.SendToQueue and
-- Steps.InputQueue are the steps of that name, and Steps.Joined is about both. Steps.Tee is
-- Tee.cpp, with the text that it writes in Steps.Tee.Dump. Steps.Asio models AsioStep.cpp and
-- AsioStepToMessage.cpp, Steps.Asio.Service the threads of AsioService.cpp, Steps.Multicast
-- MulticastReceiver.cpp, Steps.Multicast.Sender MulticastSender.cpp and Steps.Heartbeat
-- HeartbeatProducer.cpp: what boost::asio answers comes to them as events, in any order that it
-- allows, and what they ask of a socket is recorded. Queue.Waiting is about getNext, Queue.Fixture
-- a queue for the examples. Steps.Send is Step::send: what the destination has received is a list,
-- and what it leaves in a message is a parameter. Base has the shared notation.
--
-- Numbers are native, with the wrap of 64 or 32 bits written out. An operation that throws returns
-- an error. Other threads come into a loop that waits as a list of ticks: each tick changes the
-- header, may time the wait out and may call stop; a loop that uses up its ticks is still waiting.
-- Other loops have fuel: carve gets a round for each byte of the pool and two more; tryGetNext a
-- round for each published position and one more; publishPendingMessages a round for each pending
-- message, the shutdown loop one more; the gap search a round for each slot. The loops of
-- OrderedMerge that can fail to end return `loops` where the fuel is used up. A number is printed
-- with as many digits as 64 bits can have, a dump has a round for each byte.
--
-- Not modelled: memory order weaker than one order of all accesses, shared memory, the lock of
-- src/Common/SpinLock.hpp, which is the operating system's, the branch of HQHeader that builds its
-- own pool, printing, the macros that leave logging out of a build, the inside of boost::asio,
-- where configuration trees come from, what the operating system does for threads, and the console.
-- The sizes that the compiler gives to classes, the addresses and the old contents of new memory,
-- what a step's destination does, what steps do when they attach and validate, whether a thread
-- ends by itself, and lexical_cast, tolower, the resolution of addresses and whether a file can be
-- opened are parameters.
pub mod Base
pub mod Common
pub mod Message
pub mod Memory
pub mod Wait
pub mod Queue
pub mod Steps
