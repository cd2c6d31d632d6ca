-- ===== src/Steps/Copying/Copies.antt =====
-- The copies that the steps of src/StepLibrary send are what they were given.
use hsqueue.Base.{
  ℕ, zero, suc, ◌+◌, ◌*◌, ◌≤◌, ◌<◌, ◌≡◌, refl, sym, ap, ◌∙◌, subst, ◌⊎◌, [], ◌∷◌, ◌++◌, ok, arith,
  tabulate, tabulate_congr,
}
use mathlib.Core.Path.{ap₂}
use mathlib.Core.List.{append-nil, append_assoc}
use hsqueue.Message.{
  Message, Memory, payload, get, append_binary_copy, copy_meta_info_to, set_empty,
  get_write_position,
}
use hsqueue.Message.Bounds.{IsValid}
use hsqueue.Message.Transfer.{append_binary_copy_lem}
use hsqueue.Steps.Copying.{
  parcel, Deliveries, Receiver, World, send_to, send_copy, send_copies, join, send_copied,
}

-- The output message is empty, has room for the message, and their blocks do not overlap.
pub record IsReady (m out : Message) : Type 0 where
  pub valid : IsValid out
  pub emptied : out.used ≡ 0
  pub room : m.used ≤ out.capacity
  pub apart : (get m + m.used ≤ get out) ⊎ (get out + out.capacity ≤ get m)

-- The message's bytes are the same in both memories.
abbrev pub SameBytes : Message → Memory → Memory → Type 0
SameBytes m mem mem' = (a : ℕ) → get m ≤ a → a < get m + m.used → mem' a ≡ mem a

-- Destinations may keep the block of the output message for another one as large, and write to it,
-- but not to the block of the message that is being copied.
abbrev pub Respects : Receiver → Message → Type 0
Respects receive m =
    (index : ℕ) (sent : Deliveries) (mem : Memory) (out : Message)
    → IsValid out
    → m.used ≤ out.capacity
    → (get m + m.used ≤ get out) ⊎ (get out + out.capacity ≤ get m)
    → let (mem', out') = receive index sent mem out in
      SameBytes m mem mem' × IsReady m (set_empty out')

-- The same bytes are the same parcel.
pub parcel-SameBytes :
    (m : Message) (mem mem' : Memory) → SameBytes m mem mem' → parcel mem' m ≡ parcel mem m
unfolding payload
parcel-SameBytes m mem mem' same =
    ap
      (λ bytes. record {
        kind = m.kind;
        timestamp = m.timestamp;
        sequence = m.sequence;
        content = bytes;
      })
      (tabulate_congr mem' mem (get m) m.used same)

-- A copy into a message changes nothing of its handle but the end of what is written.
append_binary_copy_handle :
    (mem mem' : Memory) (m m' : Message) (source count : ℕ)
    → IsValid m
    → m.used + count ≤ m.capacity
    → append_binary_copy 1 mem m source count ≡ ok (mem', m')
    → m' ≡ record m { used = m.used + count }
unfolding append_binary_copy
append_binary_copy_handle mem mem' m m' source count v fits done = ground arith

module _ (receive : Receiver) (m : Message) (keeps : Respects receive m) where
  -- What one copy does.
  pub record Copied (w w' : World) (out' : Message) (added : Deliveries) : Type 0 where
    pub sends : w'.sent ≡ w.sent ++ added
    pub same : SameBytes m w.memory w'.memory
    pub again : IsReady m out'

  sending :
      (w : World) (mem : Memory) (out : Message) (index : ℕ)
      → append_binary_copy 1 w.memory out (get m) m.used
        ≡ ok (mem, record out { used = out.used + m.used })
      → let (w', out') =
          send_to receive index
            (record w { memory = mem })
            (copy_meta_info_to m (record out { used = out.used + m.used })) in
        send_copy receive index m (w, out) ≡ (ok tt, w', out')
  unfolding send_copy
  sending w mem out index done = ap (send_copied receive index m (w, out)) done

  after_copy :
      (index : ℕ) (w : World) (mem : Memory) (loaded : Message)
      → IsValid loaded
      → m.used ≤ loaded.capacity
      → (get m + m.used ≤ get loaded) ⊎ (get loaded + loaded.capacity ≤ get m)
      → SameBytes m w.memory mem
      → parcel mem loaded ≡ parcel w.memory m
      → let (w', out') = send_to receive index (record w { memory = mem }) loaded in
        Copied w w' out' ((index, parcel w.memory m) ∷ [])
  unfolding send_to
  after_copy index w mem loaded v room apart same e =
      let (kept, ready) = keeps index w.sent mem loaded v room apart in
      record {
        sends = ap (λ p. w.sent ++ (index, p) ∷ []) e;
        same = λ a lo hi. kept a lo hi ∙ same a lo hi;
        again = ready;
      }

  module _ (w : World) (mem : Memory) (out : Message) (r : IsReady m out)
      (bytes : payload mem (record out { used = out.used + m.used })
        ≡ payload w.memory out ++ tabulate w.memory (get m) (m.used * 1))
      (others : (a : ℕ)
        → (a < get_write_position out) ⊎ (get_write_position out + m.used * 1 ≤ a)
        → mem a ≡ w.memory a) where
    -- The copied bytes with the meta information are the message's parcel.
    loaded_parcel :
        parcel mem (copy_meta_info_to m (record out { used = out.used + m.used }))
        ≡ parcel w.memory m
    unfolding copy_meta_info_to payload get
    loaded_parcel =
        ap
          (λ l. record {
            kind = m.kind;
            timestamp = m.timestamp;
            sequence = m.sequence;
            content = l;
          })
          (bytes
            ∙ ap₂ (λ n k. tabulate w.memory (get out) n ++ tabulate w.memory (get m) k) r.emptied
                (one m.used))
      where
        one : (n : ℕ) → n * 1 ≡ n
        one n = omega arith

    loaded_Copied :
        (index : ℕ)
        → let (w', out') =
            send_to receive index
              (record w { memory = mem })
              (copy_meta_info_to m (record out { used = out.used + m.used })) in
          Copied w w' out' ((index, parcel w.memory m) ∷ [])
    unfolding copy_meta_info_to get get_write_position
    loaded_Copied index =
        let emptied = r.emptied in
        let room = r.room in
        let apart = r.apart in
        let v = r.valid in
        after_copy index w mem _
          (record {
            read_in = omega (arith, v.read_in, emptied);
            used_in = omega (arith, emptied, room);
            small = v.small;
          })
          room apart (λ a lo hi. others a (ground (arith, apart, emptied, room))) loaded_parcel

  pub send_copy_lem :
      (index : ℕ) (w : World) (out : Message)
      → IsReady m out
      → (w' : World) × (out' : Message) × (send_copy receive index m (w, out) ≡ (ok tt, w', out'))
        × Copied w w' out' ((index, parcel w.memory m) ∷ [])
  send_copy_lem index w out r =
      let fits : out.used + m.used ≤ out.capacity = omega (arith, r.emptied, r.room) in
      let (mem, full, done, bytes, v, others) =
        append_binary_copy_lem 1 w.memory out (get m) m.used r.valid (omega (arith, fits)) in
      let handle : full ≡ record out { used = out.used + m.used } =
        append_binary_copy_handle w.memory mem out full (get m) m.used r.valid fits done in
      (
        _,
        _,
        sending w mem out index (done ∙ ap (λ f. ok (mem, f)) handle),
        loaded_Copied w mem out r
            (subst
              (λ f. payload mem f ≡ payload w.memory out ++ tabulate w.memory (get m) (m.used * 1))
              handle bytes)
            others index,
      )

  looping :
      (index rounds : ℕ) (w w1 w2 : World) (out out1 out2 : Message)
      → send_copy receive index m (w, out) ≡ (ok tt, w1, out1)
      → send_copies receive m (index + 1) rounds (w1, out1) ≡ (ok tt, rounds, w2, out2)
      → send_copies receive m index (suc rounds) (w, out) ≡ (ok tt, suc rounds, w2, out2)
  unfolding send_copies
  looping index rounds w w1 w2 out out1 out2 one rest =
      ap (λ r. join r (send_copies receive m (index + 1) rounds (r.1, r.2))) one
      ∙ ap (join (ok tt, w1, out1)) rest

  -- The loop over the destinations sends each of them the parcel, and keeps the message's bytes.
  pub send_copies_lem :
      (index rounds : ℕ) (w : World) (out : Message)
      → IsReady m out
      → (w' : World) × (out' : Message) × (send_copies receive m index rounds (w, out)
          ≡ (ok tt, rounds, w', out'))
        × Copied w w' out' (tabulate (λ i. (i, parcel w.memory m)) index rounds)
  unfolding send_copies
  send_copies_lem index zero w out r =
      (w, out, refl, record { sends = sym (append-nil _); same = λ a lo hi. refl; again = r })
  send_copies_lem index (suc rounds) w out r =
      let (w1, out1, one, c) = send_copy_lem index w out r in
      let (w2, out2, rest, d) = send_copies_lem (index + 1) rounds w1 out1 c.again in
      (
        w2,
        out2,
        looping index rounds w w1 w2 out out1 out2 one rest,
        record {
          sends =
              d.sends
              ∙ ap₂ ◌++◌ c.sends (
                  ap (λ p. tabulate (λ i. (i, p)) (index + 1) rounds)
                    (parcel-SameBytes m w.memory w1.memory c.same))
              ∙ append_assoc w.sent _ _;
          same = λ a lo hi. d.same a lo hi ∙ c.same a lo hi;
          again = d.again;
        },
      )
