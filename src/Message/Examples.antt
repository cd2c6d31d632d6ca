-- ===== src/Message/Examples.antt =====
-- The theorems about src/HighQueue/Message.hpp at a message of 16 bytes with 8 written and 4 read.
use hsqueue.Base.{ℕ, ◌+◌, ◌*◌, ◌<◌, ◌≤◌, ◌≡◌, ◌++◌, ◌⊎◌, ok, arith, tabulate}
use hsqueue.Message.{Message, Memory, blank, append_binary_copy, payload, get_write_position}
use hsqueue.Message.Bounds.{IsValid}
use hsqueue.Message.Transfer.{append_binary_copy_lem}

abbrev half_full : Message
half_full = record blank { container = 1000; capacity = 16; offset = 8; used = 8; read = 4 }

half_full-IsValid : IsValid half_full
half_full-IsValid = record { read_in = omega arith; used_in = omega arith; small = omega arith }

append_example :
    (mem' : Memory) × (m' : Message) × (append_binary_copy 4 (λ a. a) half_full 40 2
      ≡ ok (mem', m'))
    × (payload mem' m' ≡ payload (λ a. a) half_full ++ tabulate (λ a. a) 40 (2 * 4))
    × IsValid m'
    × ((a : ℕ)
        → (a < get_write_position half_full) ⊎ (get_write_position half_full + 2 * 4 ≤ a)
        → mem' a ≡ a)
append_example = append_binary_copy_lem 4 (λ a. a) half_full 40 2 half_full-IsValid (omega arith)
