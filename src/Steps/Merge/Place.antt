-- ===== src/Steps/Merge/Place.antt =====
-- Where `OrderedMerge` of src/StepLibrary/OrderedMerge.cpp keeps messages, and the order in which
-- `publishPendingMessages` sends them.
use mathlib.Core.List.{append_assoc, append-nil}
use mathlib.Core.Path.{ap₂}
use hsqueue.Base.{
  ℕ, zero, suc, ◌+◌, ◌%◌, ◌≤◌, ◌<◌, ◌≡◌, ◌≢◌, ◌⊎◌, inl, inr, refl, sym, ap, ◌∙◌, subst, true, false,
  List, [], ◌∷◌, ◌++◌, map, arith, tabulate, add32, w32, get_or, set, length, length-set,
  get_or-set_self, get_or-set_ne, Bool-cases, if_of_true, if_of_false, ℕ_discrete, dec_lt,
}
use hsqueue.Message.{Message, blank, is_empty, set_empty}
use hsqueue.Steps.Send.{Destination, send}
use hsqueue.Steps.Merge.{Merge, slot, set_slot, publish_next, publish_from}
use hsqueue.Steps.Merge.Held.{Held, Waits, Kept, Kept-refl, Kept-cons}
use hsqueue.Steps.Merge.Stash.{waiting, publish_next-count}
use hsqueue.Queue.Window.{mod_apart}

abbrev pub sequences : List Message → List ℕ
sequences l = map (λ (m : Message). m.sequence) l

abbrev pub IsAt : ℕ → ℕ → ℕ → Message → Type 0
IsAt look_ahead expected q m =
    (m.sequence % look_ahead ≡ q % look_ahead)
    × (expected ≤ m.sequence)
    × (m.sequence < expected + look_ahead)

-- Every message that is kept stands in the slot of its sequence number, and belongs to the window.
pub record IsPlaced (s : Merge) : Type 0 where
  pub window : 0 < s.look_ahead
  pub sized : length s.pending ≡ s.look_ahead
  pub placed : (q : ℕ) → is_empty (slot s q) ≡ false → IsAt s.look_ahead s.expected q (slot s q)

-- Two numbers of one window with one slot are the same.
pub same_slot :
    (n start a b : ℕ)
    → 0 < n
    → start ≤ a
    → a < start + n
    → start ≤ b
    → b < start + n
    → a % n ≡ b % n
    → a ≡ b
same_slot n start a b pos la ha lb hb e = elim (dec_lt a b) [
  | yes less ↦ absurd (mod_apart n a b pos less (omega arith) e)
  | no more ↦ elim (dec_lt b a) [
    | yes less ↦ absurd (mod_apart n b a pos less (omega arith) (sym e))
    | no even ↦ omega arith
  ]
]

module _ (s : Merge) (p : IsPlaced s) (q : ℕ) (e : Message) where
  pub slot-set_slot :
      (r : ℕ)
      → ((slot (set_slot s q e) r ≡ e) × (r % s.look_ahead ≡ q % s.look_ahead))
        ⊎ ((slot (set_slot s q e) r ≡ slot s r) × (r % s.look_ahead ≢ q % s.look_ahead))
  slot-set_slot r = elim (ℕ_discrete (r % s.look_ahead) (q % s.look_ahead)) [
    | yes same ↦ inl (
      ap (λ k. get_or (set s.pending (q % s.look_ahead) e) k blank) same
          ∙ get_or-set_self s.pending _ e blank (omega (arith, p.sized, p.window)),
      same,
    )
    | no other ↦ inr (get_or-set_ne s.pending _ _ e blank (λ e'. other (sym e')), other)
  ]

-- What a run of sends leaves: the messages sent have the numbers that follow one another from the
-- one that was expected.
pub record InOrder (s s' : Merge) : Type 0 where
  pub out : List Message
  pub delivered : s'.sent ≡ s.sent ++ out
  pub consecutive : sequences out ≡ tabulate (λ i. i) s.expected (length out)
  pub advanced : s'.expected ≡ s.expected + length out
  pub same_window : s'.look_ahead ≡ s.look_ahead

unfoldable pub InOrder-refl : (s : Merge) → InOrder s s
InOrder-refl s = record {
  out = [];
  delivered = sym (append-nil _);
  consecutive = refl;
  advanced = omega arith;
  same_window = refl;
}

-- One message, and then others.
unfoldable pub InOrder-cons :
    (s t u : Merge) (m : Message)
    → m.sequence ≡ s.expected
    → t.sent ≡ s.sent ++ m ∷ []
    → t.expected ≡ s.expected + 1
    → t.look_ahead ≡ s.look_ahead
    → InOrder t u
    → InOrder s u
InOrder-cons s t u m first sent next same o = record {
  out = m ∷ o.out;
  delivered = o.delivered ∙ ap (λ l. l ++ o.out) sent ∙ append_assoc s.sent (m ∷ []) o.out;
  consecutive = ap₂ ◌∷◌ first (o.consecutive ∙ ap (λ k. tabulate (λ i. i) k (length o.out)) next);
  advanced = omega (arith, o.advanced, next);
  same_window = o.same_window ∙ same;
}

module _ (receive : Destination) where
  publish_next-IsPlaced :
      (s : Merge)
      → IsPlaced s
      → is_empty (slot s s.expected) ≡ false
      → s.expected + 1 < w32
      → IsPlaced (publish_next receive s) × ((slot s s.expected).sequence ≡ s.expected)
  unfolding send set_empty is_empty
  publish_next-IsPlaced s p full near = (
    record { window = p.window; sized = length-set s.pending _ _ ∙ p.sized; placed = placed },
    here,
  )
    where
      here : (slot s s.expected).sequence ≡ s.expected
      here =
          let (same, lo, hi) = p.placed s.expected full in
          same_slot s.look_ahead s.expected _ _ p.window lo hi (omega arith)
            (omega (arith, p.window)) same

      emptied : Message
      emptied = (send receive s.sent (slot s s.expected)).1

      later :
          (q : ℕ)
          → IsAt s.look_ahead s.expected q (slot s q)
          → q % s.look_ahead ≢ s.expected % s.look_ahead
          → IsAt s.look_ahead (add32 s.expected 1) q (slot s q)
      later q (same, lo, hi) other = elim (ℕ_discrete (slot s q).sequence s.expected) [
        | yes bad ↦ absurd (other (sym same ∙ ap (λ k. k % s.look_ahead) bad))
        | no good ↦ (same, omega (arith, lo, good, near), omega (arith, hi, near))
      ]

      placed :
          (q : ℕ)
          → is_empty (slot (set_slot s s.expected emptied) q) ≡ false
          → IsAt s.look_ahead (add32 s.expected 1) q (slot (set_slot s s.expected emptied) q)
      placed q some = elim (slot-set_slot s p s.expected emptied q) [
        | inl (new, _) ↦ absurd (cc (ap is_empty new, some))
        | inr (old, other) ↦
            subst (IsAt s.look_ahead (add32 s.expected 1) q) (sym old)
              (later q (p.placed q (sym (ap is_empty old) ∙ some)) other)
      ]

  publish_next-Held :
      (s : Merge)
      → IsPlaced s
      → is_empty (slot s s.expected) ≡ false
      → s.expected + 1 < w32
      → (slot s s.expected).sequence ≡ s.expected
      → let t = publish_next receive s in
        ((x : Message) → Held t x → Held s x)
        × ((q : ℕ) → Waits s q → (q < t.expected) ⊎ (slot t q ≡ slot s q))
  unfolding send set_empty is_empty
  publish_next-Held s p full near here = (
    λ x h.
        let (q, some, e) = h in
        elim (slot-set_slot s p s.expected emptied q) [
          | inl (new, _) ↦ absurd (cc (ap is_empty new, some))
          | inr (old, _) ↦ (q, sym (ap is_empty old) ∙ some, sym old ∙ e)
        ],
    λ q w. elim (slot-set_slot s p s.expected emptied q) [
      | inl (_, same) ↦
          let number : (slot s q).sequence ≡ s.expected =
            ap (λ i. (get_or s.pending i blank).sequence) same ∙ here in
          let q_is : q ≡ s.expected = sym w.1 ∙ number in inl (omega (arith, q_is, near))
      | inr (old, _) ↦ inr old
    ],
  )
    where
      emptied : Message
      emptied = (send receive s.sent (slot s s.expected)).1

  pub record Ordered (s s' : Merge) : Type 0 where
    pub in_order : InOrder s s'
    pub placed : IsPlaced s'
    pub kept : Kept s s' in_order.out

  pub publish_from-Ordered :
      (fuel : ℕ) (s : Merge)
      → IsPlaced s
      → s.expected + fuel < w32
      → Ordered s (publish_from receive fuel s)
  unfolding InOrder-refl InOrder-cons
  publish_from-Ordered zero s p near = record {
    in_order = InOrder-refl s;
    placed = p;
    kept = Kept-refl s;
  }
  publish_from-Ordered (suc fuel) s p near = elim (Bool-cases (is_empty (slot s s.expected))) [
    | inl none ↦
        subst (Ordered s) (sym (if_of_true _ _ none))
          (record { in_order = InOrder-refl s; placed = p; kept = Kept-refl s })
    | inr full ↦
        let (p', here) = publish_next-IsPlaced s p full (omega (arith, near)) in
        let (before, waiting_on) = publish_next-Held s p full (omega (arith, near)) here in
        let next : add32 s.expected 1 ≡ s.expected + 1 = omega (arith, near) in
        let o = publish_from-Ordered fuel (publish_next receive s) p' (omega (arith, near)) in
        subst (Ordered s) (sym (if_of_false _ _ full)) (record {
          in_order =
              InOrder-cons s (publish_next receive s) _ (slot s s.expected) here (sent_next s) next
                refl o.in_order;
          placed = o.placed;
          kept =
              Kept-cons s (publish_next receive s) _ (slot s s.expected) _ (s.expected, full, refl)
                before waiting_on (omega (arith, o.in_order.advanced)) o.kept;
        })
  ]
    where
      sent_next : (s : Merge) → (publish_next receive s).sent ≡ s.sent ++ slot s s.expected ∷ []
      sent_next s = unfold send in refl

  pub publish_from_exhausts :
      (fuel : ℕ) (s : Merge)
      → length (waiting s.pending) ≤ fuel
      → let s' = publish_from receive fuel s in is_empty (slot s' s'.expected) ≡ true
  publish_from_exhausts zero s enough = elim (Bool-cases (is_empty (slot s s.expected))) [
    | inl none ↦ none
    | inr full ↦ absurd (omega (arith, enough, publish_next-count receive s full))
  ]
  publish_from_exhausts (suc fuel) s enough = elim (Bool-cases (is_empty (slot s s.expected))) [
    | inl none ↦
        subst (λ (u : Merge). is_empty (slot u u.expected) ≡ true) (sym (if_of_true _ _ none)) none
    | inr full ↦
        subst (λ (u : Merge). is_empty (slot u u.expected) ≡ true) (sym (if_of_false _ _ full))
          (publish_from_exhausts fuel (publish_next receive s)
            (omega (arith, enough, publish_next-count receive s full)))
  ]
