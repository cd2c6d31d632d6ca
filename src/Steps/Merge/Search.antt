-- ===== src/Steps/Merge/Search.antt =====
-- The search for a gap: `findAndPublishGap` of src/StepLibrary/OrderedMerge.cpp.
use mathlib.Core.Path.{ap₂}
use hsqueue.Base.{
  ℕ, zero, suc, ◌+◌, ◌-◌, ◌%◌, ◌≤◌, ◌<◌, ◌≡◌, inl, inr, refl, ap, ◌∙◌, subst, Bool, true, false,
  List, [], ◌∷◌, arith, add32, sub32, add64, w32, get_or, length, Bool-cases, if_of_true,
  if_of_false, ℕ_discrete, lt→ltb, dec_lt,
}
use hsqueue.Message.{Message, gap, blank, is_empty, set_used, set_type, set_sequence}
use hsqueue.Steps.Send.{returns}
use hsqueue.Steps.Merge.{Merge, slot, find_gap, find_and_publish_gap, publish_gap_message}
use hsqueue.Steps.Merge.Stash.{waiting}

-- What a search from `position` finds: the first position before the end of the window whose message
-- is not empty, or none.
record Found (s : Merge) (position limit : ℕ) (r : Bool × ℕ) : Type 0 where
  first : r.0 ≡ true → (position ≤ r.1) × (r.1 < limit) × (is_empty (slot s r.1) ≡ false)
  none : r.0 ≡ false → (q : ℕ) → position ≤ q → q < limit → is_empty (slot s q) ≡ true

find_gap-Found :
    (fuel limit position : ℕ) (s : Merge)
    → limit ≤ position + fuel
    → limit < w32
    → position < w32
    → (r : Bool × ℕ) × (find_gap fuel limit position s ≡ returns r) × Found s position limit r
find_gap-Found zero limit position s enough near start = (
  (false, position),
  ground (arith, enough),
  record { first = λ e. absurd (cc e); none = λ e q lo hi. absurd (omega (arith, enough, lo, hi)) },
)
find_gap-Found (suc fuel) limit position s enough near start = elim (dec_lt position limit) [
  | no past ↦ (
    (false, position),
    ground (arith, past),
    record { first = λ e. absurd (cc e); none = λ e q lo hi. absurd (omega (arith, past, lo, hi)) },
  )
  | yes inside ↦ elim (Bool-cases (is_empty (slot s position))) [
    | inr full ↦ (
      (true, position),
      if_of_true _ _ (lt→ltb _ _ inside) ∙ if_of_false _ _ full,
      record { first = λ e. (omega arith, inside, full); none = λ e. absurd (cc e) },
    )
    | inl gone ↦
        let next : add32 position 1 ≡ position + 1 = omega (arith, inside, near) in
        let (r, e, f) =
          find_gap-Found fuel limit (position + 1) s (omega (arith, enough)) near
            (omega (arith, inside, near)) in
        (
          r,
          if_of_true _ _ (lt→ltb _ _ inside)
              ∙ if_of_true _ _ gone
              ∙ ap (λ p. find_gap fuel limit p s) next
              ∙ e,
          record {
            first = λ yes'. let (lo, hi, full) = f.first yes' in (omega (arith, lo), hi, full);
            none = λ no' q lo hi. elim (ℕ_discrete q position) [
              | yes here ↦ rw here gone
              | no other ↦ f.none no' q (omega (arith, lo, other)) hi
            ];
          },
        )
  ]
]

-- A stash with nothing in any slot of a window is empty.
nothing_waiting :
    (l : List Message)
    → ((i : ℕ) → i < length l → is_empty (get_or l i blank) ≡ true)
    → length (waiting l) ≡ 0
nothing_waiting [] h = refl
nothing_waiting (x ∷ xs) h =
    simp (h 0 (omega arith)) (nothing_waiting xs (λ i lt. h (suc i) (omega (arith, lt))))

-- A window has a position for each slot.
position_of : (n start i : ℕ) → i < n → (q : ℕ) × (start ≤ q) × (q < start + n) × (q % n ≡ i)
position_of n start i lt = elim (dec_lt i (start % n)) [
  | yes before ↦ (start - start % n + n + i, omega arith, omega arith, grind arith)
  | no after ↦ (start - start % n + i, omega arith, omega arith, grind arith)
]

pub record Gapped (s : Merge) (r : Bool × Merge) : Type 0 where
  pub same_pending : r.1.pending ≡ s.pending
  pub same_window : r.1.look_ahead ≡ s.look_ahead
  pub same_sent : r.1.sent ≡ s.sent
  pub same_capacity : r.1.out_message.capacity ≡ s.out_message.capacity
  pub close : r.1.expected < s.expected + s.look_ahead
  pub full : r.0 ≡ true → is_empty (slot r.1 r.1.expected) ≡ false
  pub unchanged : r.0 ≡ false → r.1 ≡ s
  pub empty : r.0 ≡ false → length (waiting s.pending) ≡ 0

module _ (sizeof_gap : ℕ) (s : Merge) (room : sizeof_gap ≤ s.out_message.capacity)
    (near : s.expected + s.look_ahead < w32) (window : 0 < s.look_ahead)
    (sized : length s.pending ≡ s.look_ahead) where
  publish_gap_message-returns :
      (p : ℕ)
      → p < s.expected + s.look_ahead
      → is_empty (slot s p) ≡ false
      → (s' : Merge) × (publish_gap_message sizeof_gap s.expected p s ≡ returns s')
        × Gapped s (true, s')
  unfolding publish_gap_message set_used set_sequence set_type
  publish_gap_message-returns p close full = (
    record s {
      out_message = record (s.out_message) { kind = gap; sequence = p; used = sizeof_gap };
      gap_start = s.expected;
      gap_end = sub32 p 1;
      expected = p;
    },
    ground (arith, room),
    record {
      same_pending = refl;
      same_window = refl;
      same_sent = refl;
      same_capacity = refl;
      close = close;
      full = λ e. full;
      unchanged = λ e. absurd (cc e);
      empty = λ e. absurd (cc e);
    },
  )

  all_empty :
      ((q : ℕ) → s.expected ≤ q → q < s.expected + s.look_ahead → is_empty (slot s q) ≡ true)
      → length (waiting s.pending) ≡ 0
  all_empty h = nothing_waiting s.pending (λ i lt.
      let (q, lo, hi, same) = position_of s.look_ahead s.expected i (omega (arith, lt, sized)) in
      subst (λ k. is_empty (get_or s.pending k blank) ≡ true) same (h q lo hi))

  pub find_and_publish_gap-Gapped :
      (r : Bool × Merge) × (find_and_publish_gap sizeof_gap s ≡ returns r) × Gapped s r
  unfolding find_and_publish_gap
  find_and_publish_gap-Gapped = elim (Bool-cases (is_empty (slot s s.expected))) [
    | inr full ↦ (
      (true, s),
      if_of_false _ _ full,
      record {
        same_pending = refl;
        same_window = refl;
        same_sent = refl;
        same_capacity = refl;
        close = omega (arith, window);
        full = λ e. full;
        unchanged = λ e. absurd (cc e);
        empty = λ e. absurd (cc e);
      },
    )
    | inl gone ↦ searched gone search.0 search.1 search.2
  ]
    where
      search :
          (r : Bool × ℕ) × (find_gap s.look_ahead
              (add64 s.expected s.look_ahead)
              (add32 s.expected 1)
              s
            ≡ returns r)
          × Found s (s.expected + 1) (s.expected + s.look_ahead) r
      search =
          let limit : add64 s.expected s.look_ahead ≡ s.expected + s.look_ahead =
            omega (arith, near) in
          let next : add32 s.expected 1 ≡ s.expected + 1 = omega (arith, near, window) in
          let (r, e, f) =
            find_gap-Found s.look_ahead (s.expected + s.look_ahead) (s.expected + 1) s (omega arith)
              near (omega (arith, near, window)) in
          (r, ap₂ (λ l p. find_gap s.look_ahead l p s) limit next ∙ e, f)

      searched :
          is_empty (slot s s.expected) ≡ true
          → (r : Bool × ℕ)
          → find_gap s.look_ahead (add64 s.expected s.look_ahead) (add32 s.expected 1) s ≡ returns r
          → Found s (s.expected + 1) (s.expected + s.look_ahead) r
          → (r : Bool × Merge) × (find_and_publish_gap sizeof_gap s ≡ returns r) × Gapped s r
      searched gone (true, p) e f =
          let (lo, hi, full) = f.first refl in
          let (s', published, g) = publish_gap_message-returns p hi full in
          ((true, s'), if_of_true _ _ gone ∙ rw e (rw published), g)
      searched gone (false, p) e f = (
        (false, s),
        if_of_true _ _ gone ∙ rw e,
        record {
          same_pending = refl;
          same_window = refl;
          same_sent = refl;
          same_capacity = refl;
          close = omega (arith, window);
          full = λ e'. absurd (cc e');
          unchanged = λ e'. refl;
          empty = λ e'. all_empty (λ q lo hi. elim (ℕ_discrete q s.expected) [
            | yes here ↦ rw here gone
            | no other ↦ f.none refl q (omega (arith, lo, other)) hi
          ]);
        },
      )
