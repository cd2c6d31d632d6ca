-- ===== src/Steps/Merge/Order.antt =====
-- The order in which `handleDataMessage` of src/StepLibrary/OrderedMerge.cpp sends messages, where
-- none comes from beyond the window.
use mathlib.Core.List.{append-nil}
use hsqueue.Base.{
  ℕ, ◌+◌, ◌-◌, ◌%◌, ◌<◌, ◌≡◌, inl, inr, refl, sym, ap, ◌∙◌, subst, true, false, [], arith, ltb,
  ◌==◌, if◌then◌else◌, add32, add64, w32, get_or, length, length-set, Bool-cases, if_of_true,
  if_of_false, ℕ_discrete, dec_lt, lt→ltb,
}
use hsqueue.Message.{Message, blank, is_empty, move_to}
use hsqueue.Steps.Send.{Destination, Outcome, returns, send}
use hsqueue.Steps.Merge.{
  Merge, Stats, slot, set_slot, publish_pending_messages, handle_data_message, place, stash,
}
use hsqueue.Steps.Merge.Stash.{length-waiting}
use hsqueue.Queue.Window.{mod_apart}
use hsqueue.Steps.Merge.Taken.{Taken, Taken-sent, Taken-dropped, Taken-stashed}
use hsqueue.Steps.Merge.Place.{
  IsAt, IsPlaced, same_slot, slot-set_slot, InOrder, InOrder-cons, publish_from-Ordered,
  publish_from_exhausts,
}

module _ (receive : Destination) where
  -- The step between two messages: what is expected next is not among what is kept.
  pub record IsSettled (s : Merge) : Type 0 where
    pub placed : IsPlaced s
    pub exhausted : is_empty (slot s s.expected) ≡ true

  settled_next :
      (s : Merge)
      → IsSettled s
      → s.expected + 1 < w32
      → (q : ℕ) → is_empty (slot s q) ≡ false
      → IsAt s.look_ahead (add32 s.expected 1) q (slot s q)
  settled_next s k near q some =
      let (same, lo, hi) = k.placed.placed q some in
      elim (ℕ_discrete (slot s q).sequence s.expected) [
        | yes bad ↦
            let there : q % s.look_ahead ≡ s.expected % s.look_ahead =
              sym same ∙ ap (λ n. n % s.look_ahead) bad in
            absurd (cc (ap (λ n. is_empty (get_or s.pending n blank)) there, some, k.exhausted))
        | no good ↦ (same, omega (arith, lo, good, near), omega (arith, hi, near))
      ]

  -- The step after an expected message is sent, with whatever counters.
  abbrev sent_now : Merge → Message → Stats → Merge
  sent_now s m stats = record s {
    stats = stats;
    sent = (send receive s.sent m).0;
    expected = add32 s.expected 1;
  }

  sent_now-InOrder :
      (s : Merge) (m : Message) (stats : Stats)
      → IsSettled s
      → m.sequence ≡ s.expected
      → s.expected + s.look_ahead + 1 < w32
      → let s' = publish_pending_messages receive (sent_now s m stats) in
        (o : InOrder s s') × IsSettled s' × (s.expected < s'.expected) × Taken s m s' o.out
  unfolding publish_pending_messages InOrder-cons
  sent_now-InOrder s m stats k here near =
      let next : add32 s.expected 1 ≡ s.expected + 1 = omega (arith, near) in
      let o =
        publish_from-Ordered receive (length s.pending) (sent_now s m stats)
          (record {
            window = k.placed.window;
            sized = k.placed.sized;
            placed = settled_next s k (omega (arith, near));
          })
          (omega (arith, near, next, k.placed.sized)) in
      (
        InOrder-cons s (sent_now s m stats) _ m here (unfold send in refl) next refl o.in_order,
        record {
          placed = o.placed;
          exhausted =
              publish_from_exhausts receive (length s.pending) (sent_now s m stats)
                (length-waiting s.pending);
        },
        omega (arith, o.in_order.advanced, next),
        Taken-sent s m (add32 s.expected 1) stats (send receive s.sent m).0 _ o.in_order.out o.kept
            (omega (arith, here, next, o.in_order.advanced)),
      )

  stash-IsSettled :
      (s : Merge) (m : Message) (stats : Stats) (highest : ℕ)
      → IsSettled s
      → s.expected < m.sequence
      → m.sequence < s.expected + s.look_ahead
      → let s' = record ((stash (record s { stats = stats }) m).0) { highest_stashed = highest } in
        IsSettled s' × ((slot s' m.sequence).sequence ≡ m.sequence)
  unfolding move_to
  stash-IsSettled s m stats highest k lo hi = (
    record {
      placed = record {
        window = k.placed.window;
        sized = length-set s.pending _ _ ∙ k.placed.sized;
        placed = placed;
      };
      exhausted = elim (slot-set_slot s k.placed m.sequence kept s.expected) [
        | inl (_, same) ↦
            absurd (mod_apart s.look_ahead s.expected m.sequence k.placed.window lo hi same)
        | inr (old, _) ↦ ap is_empty old ∙ k.exhausted
      ];
    },
    elim (slot-set_slot s k.placed m.sequence kept m.sequence) [
      | inl (new, _) ↦ ap (λ (x : Message). x.sequence) new
      | inr (_, other) ↦ absurd (other refl)
    ],
  )
    where
      kept : Message
      kept = (move_to m (slot s m.sequence)).1

      placed :
          (q : ℕ)
          → is_empty (slot (set_slot s m.sequence kept) q) ≡ false
          → IsAt s.look_ahead s.expected q (slot (set_slot s m.sequence kept) q)
      placed q some = elim (slot-set_slot s k.placed m.sequence kept q) [
        | inl (new, same) ↦
            subst (IsAt s.look_ahead s.expected q) (sym new) (sym same, omega (arith, lo), hi)
        | inr (old, _) ↦
            subst (IsAt s.look_ahead s.expected q) (sym old)
              (k.placed.placed q (sym (ap is_empty old) ∙ some))
      ]

  -- Counters do not matter.
  recount-InOrder : (s : Merge) (stats : Stats) → InOrder s (record s { stats = stats })
  recount-InOrder s stats = record {
    out = [];
    delivered = sym (append-nil _);
    consecutive = refl;
    advanced = omega arith;
    same_window = refl;
  }

  recount-IsSettled :
      (s : Merge) (stats : Stats) → IsSettled s → IsSettled (record s { stats = stats })
  recount-IsSettled s stats k = record {
    placed = record { window = k.placed.window; sized = k.placed.sized; placed = k.placed.placed };
    exhausted = k.exhausted;
  }

  module _ (sizeof_gap : ℕ) where
    -- What a data message leaves.
    pub record Handled (s : Merge) (m : Message) (r : Outcome (Merge × Message)) : Type 0 where
      pub last : Merge
      pub left : Message
      pub returned : r ≡ returns (last, left)
      pub in_order : InOrder s last
      pub settled : IsSettled last
      pub progress : m.sequence ≡ s.expected → s.expected < last.expected
      pub kept : s.expected < m.sequence → (slot last m.sequence).sequence ≡ m.sequence
      pub whole :
          s.expected < m.sequence
          → slot last m.sequence ≡ (if is_empty (slot s m.sequence) then m else slot s m.sequence)
      pub taken : Taken s m last in_order.out

    -- A data message of the window, or one from before it, is handled at once, in a step that waits
    -- for a number: what is sent has the numbers that follow one another from the one expected, so
    -- that nothing goes out twice or out of order; an expected message goes out with all that have
    -- waited for it; one from further on is in its slot afterwards, whole, unless the slot had one
    -- with that number, which stays; no message that was kept, and none that comes with contents, is
    -- lost or changed; and the step is settled again.
    pub handle_data_message-Handled :
        (fuel : ℕ) (s : Merge) (m : Message)
        → IsSettled s
        → 0 < s.expected
        → s.expected + s.look_ahead + 1 < w32
        → m.sequence < s.expected + s.look_ahead
        → Handled s m (handle_data_message receive sizeof_gap fuel s m)
    unfolding handle_data_message recount-InOrder
    handle_data_message-Handled fuel s m k waits near inside =
        subst (λ u. Handled s m (place receive sizeof_gap fuel u m)) (sym begun)
          (elim (ℕ_discrete m.sequence s.expected) [
            | yes here ↦
                let (o, settled, on, taken) =
                  sent_now-InOrder s m (record t { arrived_in_order = add64 t.arrived_in_order 1 })
                    k here near in
                record {
                  last = _;
                  left = (send receive s.sent m).1;
                  returned = if_of_true {b = m.sequence == s.expected} _ _ (ground (arith, here));
                  in_order = o;
                  settled = settled;
                  progress = λ e. on;
                  kept = λ e. absurd (omega (arith, e, here));
                  whole = λ e. absurd (omega (arith, e, here));
                  taken = taken;
                }
            | no away ↦ elim (dec_lt m.sequence s.expected) [
              | yes old ↦ record {
                last = record s { stats = record t { previous = add64 t.previous 1 } };
                left = m;
                returned =
                    if_of_false {b = m.sequence == s.expected} _ _ (ground (arith, away))
                    ∙ if_of_true _ _ (lt→ltb _ _ old);
                in_order = recount-InOrder s _;
                settled = recount-IsSettled s _ k;
                progress = λ e. absurd (away e);
                kept = λ e. absurd (omega (arith, e, old));
                whole = λ e. absurd (omega (arith, e, old));
                taken = Taken-dropped s m _ (inl old);
              }
              | no new ↦ ahead (omega (arith, away, new))
            ]
          ])
      where
        t : Stats
        t = s.stats

        begun :
            (if s.expected == 0
              then record s { expected = m.sequence; highest_stashed = m.sequence }
              else s)
            ≡ s
        begun = if_of_false {b = s.expected == 0} _ _ (ground (arith, waits))

        ahead : s.expected < m.sequence → Handled s m (place receive sizeof_gap fuel s m)
        ahead lo = elim (Bool-cases (is_empty (slot s m.sequence))) [
          | inl free ↦
              let (settled, there) =
                stash-IsSettled s m (record t { stashed = add64 t.stashed 1 })
                  (if ltb s.highest_stashed m.sequence then m.sequence else s.highest_stashed) k lo
                  inside in
              let (taken, whole) =
                Taken-stashed s m (record t { stashed = add64 t.stashed 1 })
                  (if ltb s.highest_stashed m.sequence then m.sequence else s.highest_stashed)
                  k.placed free in
              record {
                last = _;
                left = (move_to m (slot s m.sequence)).0;
                returned =
                    if_of_false {b = m.sequence == s.expected} _ _ (ground (arith, lo))
                    ∙ if_of_false {b = ltb m.sequence s.expected} _ _ (ground (arith, lo))
                    ∙ if_of_true {b = ltb (m.sequence - s.expected) s.look_ahead} _ _
                        (ground (arith, lo, inside))
                    ∙ if_of_true _ _ free;
                in_order = record {
                  out = [];
                  delivered = sym (append-nil _);
                  consecutive = refl;
                  advanced = omega arith;
                  same_window = refl;
                };
                settled = settled;
                progress = λ e. absurd (omega (arith, e, lo));
                kept = λ e. there;
                whole = λ e. whole ∙ sym (if_of_true _ _ free);
                taken = taken;
              }
          | inr taken ↦
              let (same, from, to) = k.placed.placed m.sequence taken in
              let number : (slot s m.sequence).sequence ≡ m.sequence =
                same_slot s.look_ahead s.expected _ _ k.placed.window from to (omega (arith, lo))
                  inside same in
              record {
                last = record s {
                  stats = record t { duplicates_stash = add64 t.duplicates_stash 1 };
                };
                left = m;
                returned =
                    if_of_false {b = m.sequence == s.expected} _ _ (ground (arith, lo))
                    ∙ if_of_false {b = ltb m.sequence s.expected} _ _ (ground (arith, lo))
                    ∙ if_of_true {b = ltb (m.sequence - s.expected) s.look_ahead} _ _
                        (ground (arith, lo, inside))
                    ∙ if_of_false _ _ taken;
                in_order = recount-InOrder s _;
                settled = recount-IsSettled s _ k;
                progress = λ e. absurd (omega (arith, e, lo));
                kept = λ e. number;
                whole = λ e. sym (if_of_false _ _ taken);
                taken = Taken-dropped s m _ (inr (taken, number));
              }
        ]
