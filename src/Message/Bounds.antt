-- ===== src/Message/Bounds.antt =====
-- The cursors of a message: what is read was written, and what is written fits the block.
use hsqueue.Base.{
  ℕ, ◌+◌, ◌-◌, ◌*◌, ◌≤◌, ◌<◌, ◌≡◌, Bool, true, false, arith, leb, if◌then◌else◌, w64, Result, ok,
  err, used_gt_capacity, read_gt_used,
}
use hsqueue.Message.{
  Message, set_used, add_used, add_read, set_empty, move_to, get_unread, need_unread, attach, reset,
}

pub record IsValid (m : Message) : Type 0 where
  pub read_in : m.read ≤ m.used
  pub used_in : m.used ≤ m.capacity
  pub small : m.capacity < w64

-- What a call that succeeds leaves has the property.
abbrev pub Keeps {ℓ κ} : {A : Type ℓ} → (A → Type κ) → Result A → Type κ
Keeps P (ok a) = P a
Keeps P (err e) = Unit

abbrev pub is_ok {ℓ} : {A : Type ℓ} → Result A → Bool
is_ok (ok a) = true
is_ok (err e) = false

-- For a valid message, and an end that is a 64-bit number, `addUsed` moves the write position by
-- `count` objects exactly when they fit the block, and throws otherwise.
pub add_used_lem :
    (size : ℕ) (m : Message) (count : ℕ)
    → IsValid m
    → m.used + count * size < w64
    → add_used size m count ≡ (
        if leb (m.used + count * size) m.capacity
        then ok (record m { used = m.used + count * size })
        else err used_gt_capacity)
unfolding add_used
add_used_lem size m count v small = ground arith

-- Whatever the count, also where the 64-bit sum wraps, a successful `addUsed` leaves the write
-- position inside the block.
pub add_used-Keeps :
    (size : ℕ) (m : Message) (count : ℕ)
    → Keeps (λ m'. m'.used ≤ m'.capacity) (add_used size m count)
unfolding add_used
add_used-Keeps size m count = ground arith

-- Where the sum wraps, `addUsed` may accept objects that do not fit, and moves the write position
-- back.
pub add_used_wraps :
    (size : ℕ) (m : Message) (count : ℕ)
    → IsValid m
    → count * size < w64
    → w64 ≤ m.used + count * size
    → add_used size m count ≡ ok (record m { used = m.used + count * size - w64 })
unfolding add_used
add_used_wraps size m count v h k = ground arith

-- For a valid message, `addRead` moves the read position by `count` objects exactly when so many
-- were written and not read, and throws otherwise; both keep the message valid.
pub add_read_lem :
    (size : ℕ) (m : Message) (count : ℕ)
    → IsValid m
    → m.read + size * count < w64
    → (add_read size m count ≡ (
        if leb (m.read + size * count) m.used
        then ok (record m { read = m.read + size * count })
        else err read_gt_used))
      × Keeps IsValid (add_read size m count)
unfolding add_read
add_read_lem size m count v small = (ground arith, ground arith)

-- `needUnread` for bytes is true exactly when `addRead` of as many bytes succeeds, for a valid
-- message and a read position that does not wrap.
pub need_unread-add_read :
    (m : Message) (count : ℕ)
    → IsValid m
    → m.read + count < w64
    → need_unread 1 m count ≡ is_ok (add_read 1 m count)
unfolding need_unread add_read
need_unread-add_read m count v small = ground arith

-- `setUsed` does not look at the read position: a valid message whose end is put before it is
-- accepted, and then claims almost 2^64 unread bytes.
pub set_used_below_read :
    (m : Message) (used : ℕ)
    → IsValid m
    → used < m.read
    → Keeps (λ m'. get_unread 1 m' ≡ w64 - (m.read - used)) (set_used m used)
unfolding set_used get_unread
set_used_below_read m used v h = ground arith

-- `reset` and `set` leave the read position: a message that was read, released and attached to
-- another block claims almost 2^64 unread bytes.
pub attach-reset_unread :
    (m : Message) (container capacity offset : ℕ)
    → m.read < w64
    → 0 < m.read
    → get_unread 1 (attach (reset m) container capacity offset 0) ≡ w64 - m.read
unfolding get_unread attach reset
attach-reset_unread m container capacity offset h k = ground arith

pub set_empty-IsValid : {m : Message} → IsValid m → IsValid (set_empty m)
unfolding set_empty
set_empty-IsValid v = omega arith

pub move_to-IsValid :
    {m n : Message} → IsValid m → IsValid n → IsValid (move_to m n).0 × IsValid (move_to m n).1
unfolding move_to
move_to-IsValid v w = omega arith
