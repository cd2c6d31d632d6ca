-- ===== src/Queue/Header.antt =====
-- src/HighQueue/details/HQHeader.cpp and hpp, HQEntry.hpp, HQEntryAccessor.hpp,
-- HQReservePosition.hpp: what producers and consumer share. The positions are in cells of their own,
-- which are members here.
use hsqueue.Base.{ℕ, zero, suc, ◌%◌, Bool, false, List, [], ◌∷◌, get_or, set, Result, ok, ◌>>=◌}
use hsqueue.Message.{Message, blank}
use hsqueue.Memory.BlockPool.{BlockPool, allocate, release_message}
use hsqueue.Wait.{WaitStrategy}

-- `HighQEntry::Status`
pub data Status : Type 0 where
  filled empty skip : Status

pub record Entry : Type 0 where
  pub message : Message
  pub status : Status

-- `CreationParameters`
pub record Parameters : Type 0 where
  pub producer_wait_strategy : WaitStrategy
  pub consumer_wait_strategy : WaitStrategy
  pub discard_messages_if_no_consumer : Bool
  pub entry_count : ℕ
  pub message_size : ℕ
  pub message_count : ℕ

pub data Signature : Type 0 where
  initializing live dead : Signature

pub record Header : Type 0 where
  pub signature : Signature
  pub name : List ℕ
  pub discard_messages_if_no_consumer : Bool
  pub producer_wait_strategy : WaitStrategy
  pub consumer_wait_strategy : WaitStrategy
  pub entry_count : ℕ
  pub entries : List Entry
  pub read_position : ℕ
  pub publish_position : ℕ
  pub reserve_position : ℕ
  pub consumer_present : Bool
  pub producers_present : ℕ
  pub producer_waiting : Bool
  pub consumer_waiting : Bool

abbrev pub blank_entry : Entry
blank_entry = record { message = blank; status = empty }

-- `HighQEntryAccessor::operator[]`
abbrev pub entry_at : Header → ℕ → Entry
entry_at h position = get_or h.entries (position % h.entry_count) blank_entry

-- A write through the reference that the accessor returns.
abbrev pub set_entry : Header → ℕ → Entry → Header
set_entry h position e = record h { entries = set h.entries (position % h.entry_count) e }

-- `name_`: at most 31 characters, filled up with zeros to 32.
unfoldable pub copy_name : ℕ → List ℕ → List ℕ
copy_name zero name = 0 ∷ []
copy_name (suc room) [] = 0 ∷ copy_name room []
copy_name (suc room) (c ∷ name) = c ∷ copy_name room name

-- `allocateInternalMessages`: each entry's message takes a block of the pool.
unfoldable pub allocate_internal_messages : ℕ → BlockPool → Result (BlockPool × List Entry)
allocate_internal_messages zero pool = ok (pool, [])
allocate_internal_messages (suc n) pool = allocate pool blank >>= λ r.
    allocate_internal_messages n r.0 >>= λ s.
    ok (s.0, record { message = r.1; status = empty } ∷ s.1)

-- The members as the constructor sets them; a new queue is empty at the position `entryCount_`.
abbrev pub new_header : List ℕ → Parameters → List Entry → Header
new_header name parameters entries = record {
  signature = live;
  name = copy_name 31 name;
  discard_messages_if_no_consumer = parameters.discard_messages_if_no_consumer;
  producer_wait_strategy = parameters.producer_wait_strategy;
  consumer_wait_strategy = parameters.consumer_wait_strategy;
  entry_count = parameters.entry_count;
  entries = entries;
  read_position = parameters.entry_count;
  publish_position = parameters.entry_count;
  reserve_position = parameters.entry_count;
  consumer_present = false;
  producers_present = 0;
  producer_waiting = false;
  consumer_waiting = false;
}

-- The constructor, with the pool given.
unfoldable pub make_header : List ℕ → Parameters → BlockPool → Result (BlockPool × Header)
make_header name parameters pool = allocate_internal_messages parameters.entry_count pool >>= λ r.
    ok (r.0, new_header name parameters r.1)

release_entries : BlockPool → List Entry → Result (BlockPool × List Entry)
release_entries pool [] = ok (pool, [])
release_entries pool (e ∷ es) = release_message pool e.message >>= λ r.
    release_entries r.0 es >>= λ s. ok (s.0, record e { message = r.1 } ∷ s.1)

-- `releaseInternalMessages`
unfoldable pub release_internal_messages : BlockPool → Header → Result (BlockPool × Header)
unfolding release_entries
release_internal_messages pool h =
    release_entries pool h.entries >>= λ r. ok (r.0, record h { entries = r.1 })
