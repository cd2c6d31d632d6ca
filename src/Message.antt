-- ===== src/Message.antt =====
-- src/HighQueue/Message.hpp and Message.cpp: a message is a handle on a block of memory, with the
-- number of bytes written and read and the meta information that travels with it. A throwing
-- operation returns the error, and leaves the message as it was.
use hsqueue.Base.{
  ℕ, zero, suc, ◌+◌, ◌-◌, ◌*◌, ◌/◌, ◌≤◌, ◌<◌, ◌≡◌, ◌&&◌, Bool, true, false, List, ltb, leb, ◌==◌,
  if◌then◌else◌, tabulate, add64, mul64, sub64, Result, ok, err, ◌>>=◌, used_gt_capacity,
  read_gt_used, absent_object,
}
pub mod Bounds
pub mod Transfer
pub mod Names
mod Examples

pub data MessageType : Type 0 where
  unused shutdown heartbeat multicast_packet gap mock_message : MessageType
  local_type0 local_type1 local_type2 local_type3 : MessageType
  local_type4 local_type5 local_type6 local_type7 : MessageType
  extra_type_base : MessageType

-- `container` is an address, 0 for none; `offset` counts from there.
pub record Message : Type 0 where
  pub container : ℕ
  pub capacity : ℕ
  pub offset : ℕ
  pub used : ℕ
  pub read : ℕ
  pub kind : MessageType
  pub timestamp : ℕ
  pub sequence : ℕ

-- The bytes of the process, by address.
abbrev pub Memory : Type 0
Memory = ℕ → ℕ

-- The members of a message that the constructor sets, before it allocates a block.
abbrev pub blank : Message
blank = record {
  container = 0;
  capacity = 0;
  offset = 0;
  used = 0;
  read = 0;
  kind = unused;
  timestamp = 0;
  sequence = 0;
}

unfoldable pub set_used : Message → ℕ → Result Message
set_used m used =
    if ltb m.capacity used then err used_gt_capacity else ok (record m { used = used })

-- `size` is `sizeof(T)`.
unfoldable pub add_used : ℕ → Message → ℕ → Result Message
unfolding set_used
add_used size m count = set_used m (add64 m.used (mul64 count size))

unfoldable pub set_read : Message → ℕ → Result Message
set_read m read = if ltb m.used read then err read_gt_used else ok (record m { read = read })

unfoldable pub add_read : ℕ → Message → ℕ → Result Message
unfolding set_read
add_read size m count = set_read m (add64 m.read (mul64 size count))

unfoldable pub set_empty : Message → Message
set_empty m = record m { used = 0; read = 0 }

unfoldable pub rewind : Message → Message
rewind m = record m { read = 0 }

unfoldable pub is_empty : Message → Bool
is_empty m = m.used == 0

unfoldable pub set_type : Message → MessageType → Message
set_type m kind = record m { kind = kind }

unfoldable pub set_timestamp : Message → ℕ → Message
set_timestamp m timestamp = record m { timestamp = timestamp }

unfoldable pub set_sequence : Message → ℕ → Message
set_sequence m sequence = record m { sequence = sequence }

-- The second message, after the call on the first.
unfoldable pub copy_meta_info_to : Message → Message → Message
copy_meta_info_to m rhs = record rhs {
  kind = m.kind;
  timestamp = m.timestamp;
  sequence = m.sequence;
}

-- Both messages after `m.moveTo(rhs)`.
unfoldable pub move_to : Message → Message → Message × Message
unfolding copy_meta_info_to
move_to m rhs = (
  record m {
    container = rhs.container;
    capacity = rhs.capacity;
    offset = rhs.offset;
    used = 0;
    read = 0;
  },
  copy_meta_info_to m (record rhs {
    container = m.container;
    capacity = m.capacity;
    offset = m.offset;
    used = m.used;
    read = m.read;
  }),
)

-- The addresses that `get`, `getWritePosition` and `getReadPosition` return.
unfoldable pub get : Message → ℕ
get m = m.container + m.offset

unfoldable pub get_write_position : Message → ℕ
get_write_position m = m.container + m.offset + m.used

unfoldable pub get_read_position : Message → ℕ
get_read_position m = m.container + m.offset + m.read

unfoldable pub available : ℕ → Message → ℕ
available size m = sub64 m.capacity m.used / size

unfoldable pub get_unread : ℕ → Message → ℕ
get_unread size m = sub64 m.used m.read / size

unfoldable pub need_available : ℕ → Message → ℕ → Bool
unfolding available
need_available size m count = leb count (available size m)

unfoldable pub need_unread : ℕ → Message → ℕ → Bool
unfolding get_unread
need_unread size m count = leb count (get_unread size m)

-- The address of the object read, and the message past it.
unfoldable pub read : ℕ → Message → Result (ℕ × Message)
unfolding add_read get_read_position
read size m = add_read size m 1 >>= λ m'. ok (get_read_position m, m')

-- `memcpy`: `n` bytes from `source` to `target`.
unfoldable pub copy_bytes : Memory → ℕ → ℕ → ℕ → Memory
copy_bytes mem source target n a =
    if leb target a && ltb a (target + n) then mem (source + (a - target)) else mem a

-- `appendBinaryCopy(data, count)`, with `source` the address of the data.
unfoldable pub append_binary_copy : ℕ → Memory → Message → ℕ → ℕ → Result (Memory × Message)
unfolding add_used get_write_position copy_bytes
append_binary_copy size mem m source count = add_used size m count >>= λ m'.
    ok (copy_bytes mem source (get_write_position m) (count * size), m')

-- `appendCopy`: the object's bytes are given by its copy constructor, `fill`, from its address.
unfoldable pub append_copy :
    ℕ → (ℕ → Memory → Memory) → Memory → Message → Result (Memory × Message)
unfolding add_used get_write_position
append_copy size fill mem m = add_used size m 1 >>= λ m'. ok (fill (get_write_position m) mem, m')

-- `emplace`: the object's bytes are given by the constructor, `fill`, from its address.
unfoldable pub emplace : ℕ → (ℕ → Memory → Memory) → Memory → Message → Result (Memory × Message)
unfolding set_used get
emplace size fill mem m = set_used m size >>= λ m'. ok (fill (get m) mem, m')

-- `emplaceBack` calls `addUsed` with its default type, a byte.
unfoldable pub emplace_back :
    ℕ → (ℕ → Memory → Memory) → Memory → Message → Result (Memory × Message)
unfolding add_used get_write_position
emplace_back size fill mem m = add_used 1 m size >>= λ m'. ok (fill (get_write_position m) mem, m')

-- The address of the object that `destroyBack` destroys.
unfoldable pub destroy_back : ℕ → Message → Result ℕ
unfolding get_read_position
destroy_back size m = if leb size m.read then ok (get_read_position m) else err absent_object

-- `set`: attach a block. `capacity` 0 stands for `used`; what was read is not reset.
unfoldable pub attach : Message → ℕ → ℕ → ℕ → ℕ → Message
attach m container capacity offset used = record m {
  container = container;
  capacity = if capacity == 0 then used else capacity;
  offset = offset;
  used = used;
}

unfoldable pub reset : Message → Message
reset m = record m { container = 0; capacity = 0; offset = 0; used = 0 }

-- The bytes written to a message.
unfoldable pub payload : Memory → Message → List ℕ
unfolding get
payload mem m = tabulate mem (get m) m.used
