-- ===== src/Steps/Copying/Room.antt =====
-- Steps that fill their output message themselves need it empty, with room, whenever they send again.
use hsqueue.Base.{ℕ, ◌≡◌, ◌≤◌}
use hsqueue.Message.{Message, Memory, set_empty}
use hsqueue.Message.Bounds.{IsValid}
use hsqueue.Steps.Copying.{Deliveries, Receiver}

-- The output message is empty and has room.
pub record IsOpen (size : ℕ) (out : Message) : Type 0 where
  pub valid : IsValid out
  pub emptied : out.used ≡ 0
  pub room : size ≤ out.capacity

-- The destination may keep the block of the message for another one as large.
abbrev pub KeepsRoom : Receiver → ℕ → Type 0
KeepsRoom receiver size =
    (index : ℕ) (sent : Deliveries) (mem : Memory) (out : Message)
    → IsValid out
    → size ≤ out.capacity
    → IsOpen size (set_empty (receiver index sent mem out).1)
