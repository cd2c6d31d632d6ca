-- ===== src/Message/Transfer.antt =====
-- What becomes of the bytes: a copy appends them, a move hands the block over.
use hsqueue.Base.{
  ℕ, ◌+◌, ◌-◌, ◌*◌, ◌≤◌, ◌<◌, ◌≡◌, refl, sym, ap, ◌∙◌, ◌⊎◌, inl, ◌++◌, true, arith, ok, le→leb,
  tabulate, tabulate-append, tabulate_congr, tabulate_shift,
}
use mathlib.Core.Path.{ap₂}
use hsqueue.Message.{
  Message, Memory, move_to, get, get_write_position, copy_bytes, append_binary_copy, payload,
  is_empty,
}
use hsqueue.Message.Bounds.{IsValid, add_used_lem}

-- The copied range holds the source's bytes.
copy_bytes_inside :
    (mem : Memory) (source target n i : ℕ)
    → i < n
    → copy_bytes mem source target n (target + i) ≡ mem (source + i)
unfolding copy_bytes
copy_bytes_inside mem source target n i h = ground (arith, ap mem same)
  where
    same : source + (target + i - target) ≡ source + i
    same = omega arith

copy_bytes_outside :
    (mem : Memory) (source target n a : ℕ)
    → (a < target) ⊎ (target + n ≤ a)
    → copy_bytes mem source target n a ≡ mem a
unfolding copy_bytes
copy_bytes_outside mem source target n a h = ground arith

-- `appendBinaryCopy` to a valid message whose block has room succeeds, and appends the source's
-- bytes to the payload. (`memcpy` takes the source and the block not to overlap; the model reads
-- every source byte before the copy.)
pub append_binary_copy_lem :
    (size : ℕ) (mem : Memory) (m : Message) (source count : ℕ)
    → IsValid m
    → m.used + count * size ≤ m.capacity
    → (mem' : Memory) × (m' : Message) × (append_binary_copy size mem m source count
        ≡ ok (mem', m'))
      × (payload mem' m' ≡ payload mem m ++ tabulate mem source (count * size))
      × IsValid m'
      × ((a : ℕ)
          → (a < get_write_position m) ⊎ (get_write_position m + count * size ≤ a)
          → mem' a ≡ mem a)
unfolding append_binary_copy payload get_write_position get
append_binary_copy_lem size mem m source count v fits = (
  copied,
  longer,
  rw (add_used_lem size m count v (omega arith)) (rw (le→leb _ _ fits)),
  sym (tabulate-append copied (get m) m.used (count * size)) ∙ ap₂ ◌++◌ kept added,
  omega arith,
  λ a h. copy_bytes_outside mem source (get_write_position m) (count * size) a h,
)
  where
    copied : Memory
    copied = copy_bytes mem source (get_write_position m) (count * size)

    longer : Message
    longer = record m { used = m.used + count * size }

    kept : tabulate copied (get m) m.used ≡ tabulate mem (get m) m.used
    kept =
        tabulate_congr copied mem (get m) m.used
          (λ j lo hi. copy_bytes_outside mem source _ _ j (inl hi))

    added : tabulate copied (get m + m.used) (count * size) ≡ tabulate mem source (count * size)
    added =
        tabulate_shift copied mem _ source (count * size)
          (λ j lt. copy_bytes_inside mem source _ _ j lt)

-- `moveTo` hands the sender's payload and meta information over as they are, whatever the memory
-- holds, and leaves the sender an empty message on the receiver's block.
pub move_to_lem :
    (mem : Memory) (m n : Message)
    → let (m', n') = move_to m n in
      (payload mem n' ≡ payload mem m)
      × (n'.kind ≡ m.kind)
      × (n'.sequence ≡ m.sequence)
      × (n'.timestamp ≡ m.timestamp)
      × (n'.read ≡ m.read)
      × (get n' ≡ get m)
      × (get m' ≡ get n)
      × (m'.capacity ≡ n.capacity)
      × (is_empty m' ≡ true)
unfolding move_to payload is_empty
move_to_lem mem m n = (refl, refl, refl, refl, refl, refl, refl, refl, refl)
