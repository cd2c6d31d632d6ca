-- ===== src/Queue/Window.antt =====
-- The ring of entries as a window on an endless sequence of positions: what the queue holds, and how
-- the entries of the window stay apart.
use mathlib.Core.Path.{ap₂}
use hsqueue.Base.{
  ℕ, suc, ◌+◌, ◌-◌, ◌%◌, ◌≤◌, ◌<◌, ◌≡◌, ◌≢◌, sym, ap, ◌∙◌, List, [], ◌∷◌, ◌++◌, arith, length,
  get_or, set, tabulate, get_or-set_self, get_or-set_ne, length-set, tabulate-append,
  tabulate_congr, length-tabulate, dec_lt, ℕ_discrete, ◌⊎◌, inl, inr,
}
use hsqueue.Message.{Message}
use hsqueue.Queue.Header.{Header, Entry, filled, skip, blank_entry}

-- The part of a header that the contents depend on.
pub record Ring : Type 0 where
  pub entries : List Entry
  pub entry_count : ℕ
  pub read_position : ℕ
  pub publish_position : ℕ

abbrev pub ring : Header → Ring
ring h = record {
  entries = h.entries;
  entry_count = h.entry_count;
  read_position = h.read_position;
  publish_position = h.publish_position;
}

abbrev pub at : Ring → ℕ → Entry
at r position = get_or r.entries (position % r.entry_count) blank_entry

-- The messages that are published and not read, oldest first.
unfoldable pub contents : Ring → List Message
contents r = tabulate (λ i. (at r i).message) r.read_position (r.publish_position - r.read_position)

pub record IsValid (r : Ring) : Type 0 where
  pub some_entries : 0 < r.entry_count
  pub sized : length r.entries ≡ r.entry_count
  pub ordered : r.read_position ≤ r.publish_position
  pub bounded : r.publish_position ≤ r.read_position + r.entry_count
  pub no_skip : (i : ℕ) → (at r i).status ≢ skip
  pub ready : (i : ℕ) → r.read_position ≤ i → i < r.publish_position → (at r i).status ≡ filled

pub length-contents : (r : Ring) → length (contents r) ≡ r.publish_position - r.read_position
unfolding contents
length-contents r = length-tabulate _ r.read_position (r.publish_position - r.read_position)

-- Positions closer together than the number of entries have different entries.
pub mod_apart : (n i p : ℕ) → 0 < n → i < p → p < i + n → i % n ≢ p % n
mod_apart n i p pos lt near e = grind arith

-- An entry is written at `position`.
abbrev pub write_at : Ring → ℕ → Entry → Ring
write_at r position e = record r { entries = set r.entries (position % r.entry_count) e }

module _ {r : Ring} (v : IsValid r) (position : ℕ) (e : Entry) where
  pub at-write_at_self : at (write_at r position e) position ≡ e
  at-write_at_self =
      get_or-set_self r.entries (position % r.entry_count) e blank_entry
        (omega (arith, v.sized, v.some_entries))

  pub at-write_at_ne :
      (i : ℕ) → i % r.entry_count ≢ position % r.entry_count → at (write_at r position e) i ≡ at r i
  at-write_at_ne i h = get_or-set_ne r.entries _ _ e blank_entry (λ e'. h (sym e'))

  at-write_at :
      (i : ℕ)
      → (at (write_at r position e) i ≡ e)
        ⊎ ((at (write_at r position e) i ≡ at r i) × (i % r.entry_count ≢ position % r.entry_count))
  at-write_at i = elim (ℕ_discrete (i % r.entry_count) (position % r.entry_count)) [
    | yes same ↦ inl (
        ap (λ k. get_or (set r.entries (position % r.entry_count) e) k blank_entry) same
        ∙ at-write_at_self)
    | no other ↦ inr (at-write_at_ne i other, other)
  ]

  -- A filled entry keeps the ring free of entries to skip.
  write_at-no_skip : e.status ≡ filled → (i : ℕ) → (at (write_at r position e) i).status ≢ skip
  write_at-no_skip full i = elim (at-write_at i) [
    | inl new ↦ λ bad. cc (ap (λ (x : Entry). x.status) new, full, bad)
    | inr (old, _) ↦ λ bad. v.no_skip i (sym (ap (λ (x : Entry). x.status) old) ∙ bad)
  ]

-- The ring after a message is put at the publish position.
abbrev pub put_at : Ring → Entry → Ring
put_at r e = record (write_at r r.publish_position e) { publish_position = r.publish_position + 1 }

-- The ring after the oldest message is taken; its entry keeps another block.
abbrev pub take_at : Ring → Entry → Ring
take_at r e = record (write_at r r.read_position e) { read_position = r.read_position + 1 }

abbrev message_at : Ring → ℕ → Message
message_at q i = (at q i).message

module _ {r : Ring} (e : Entry) (v : IsValid r) where
  open r use {entries, entry_count, read_position, publish_position}

  -- Positions of the window before the one written, or behind it, keep their entries.
  kept :
      (position i : ℕ)
      → (i < position) × (position < i + entry_count)
        ⊎ (position < i) × (i < position + entry_count)
      → at (write_at r position e) i ≡ at r i
  kept position i (inl (a, b)) =
      at-write_at_ne v position e i (mod_apart entry_count i position v.some_entries a b)
  kept position i (inr (a, b)) =
      at-write_at_ne v position e i
        (λ same. mod_apart entry_count position i v.some_entries a b (sym same))

  put_ready :
      publish_position < read_position + entry_count
      → e.status ≡ filled
      → (i : ℕ) → read_position ≤ i
      → i < publish_position + 1
      → (at (write_at r publish_position e) i).status ≡ filled
  put_ready room full i lo hi = elim (dec_lt i publish_position) [
    | yes old ↦
        ap (λ (x : Entry). x.status) (kept publish_position i (inl (old, omega arith)))
        ∙ v.ready i lo old
    | no new ↦
        let here : i ≡ publish_position = omega arith in
        rw here (ap (λ (x : Entry). x.status) (at-write_at_self v publish_position e) ∙ full)
  ]

  put_contents :
      publish_position < read_position + entry_count
      → contents (put_at r e) ≡ contents r ++ e.message ∷ []
  unfolding contents
  put_contents room =
      rw (longer, ← tabulate-append new read_position k 1)
        (ap₂ ◌++◌
          (tabulate_congr new (message_at r) read_position k (λ j lo hi.
            ap (λ (x : Entry). x.message)
              (kept publish_position j (inl (omega arith, omega arith)))))
          (ap (λ m. m ∷ [])
            (ap new there ∙ ap (λ (x : Entry). x.message) (at-write_at_self v publish_position e))))
    where
      new : ℕ → Message
      new = message_at (write_at r publish_position e)

      k : ℕ
      k = publish_position - read_position

      longer : publish_position + 1 - read_position ≡ k + 1
      longer = omega (arith, v.ordered)

      there : read_position + k ≡ publish_position
      there = omega (arith, v.ordered)

  -- Putting a message where there is room appends it, and keeps the ring valid.
  pub put_at-IsValid :
      publish_position < read_position + entry_count
      → e.status ≡ filled
      → IsValid (put_at r e) × (contents (put_at r e) ≡ contents r ++ e.message ∷ [])
  put_at-IsValid room full = (
    record {
      some_entries = v.some_entries;
      sized = length-set entries _ e ∙ v.sized;
      ordered = omega (arith, v.ordered);
      bounded = omega arith;
      no_skip = write_at-no_skip v publish_position e full;
      ready = put_ready room full;
    },
    put_contents room,
  )

  take_contents :
      read_position < publish_position
      → contents r ≡ (at r read_position).message ∷ contents (take_at r e)
  unfolding contents
  take_contents held = rw longer (
      ap (λ l. message_at r read_position ∷ l)
        (tabulate_congr (message_at r) (message_at (write_at r read_position e)) (read_position + 1)
          k
          (λ j lo hi. sym (
            ap (λ (x : Entry). x.message)
              (kept read_position j (inr (omega arith, omega (arith, v.bounded))))))))
    where
      k : ℕ
      k = publish_position - (read_position + 1)

      longer : publish_position - read_position ≡ suc k
      longer = omega arith

  -- Taking from a ring that holds something removes the oldest message, and keeps the ring valid.
  pub take_at-IsValid :
      read_position < publish_position
      → e.status ≡ filled
      → IsValid (take_at r e) × (contents r ≡ (at r read_position).message ∷ contents (take_at r e))
  take_at-IsValid held full = (
    record {
      some_entries = v.some_entries;
      sized = length-set entries _ e ∙ v.sized;
      ordered = omega arith;
      bounded = omega (arith, v.bounded);
      no_skip = write_at-no_skip v read_position e full;
      ready = λ i lo hi.
          ap (λ (x : Entry). x.status)
            (kept read_position i (inr (omega arith, omega (arith, v.bounded))))
          ∙ v.ready i (omega arith) hi;
    },
    take_contents held,
  )
