-- ===== src/Steps/Merge/Stash.antt =====
-- The messages that `OrderedMerge` of src/StepLibrary/OrderedMerge.cpp keeps, and how
-- `publishPendingMessages` sends them on.
use mathlib.Core.List.{Perm, append_assoc, append-nil}
use mathlib.Core.List.Perm
use hsqueue.Base.{
  ℕ, zero, suc, ◌+◌, ◌*◌, ◌%◌, ◌≤◌, ◌<◌, ◌≡◌, inl, inr, refl, sym, ap, ◌∙◌, subst, true, false,
  List, [], ◌∷◌, ◌++◌, arith, if◌then◌else◌, add32, w32, get_or, set, length, length-set,
  perm-length, Bool-cases, if_of_true, if_of_false, length-append,
}
use hsqueue.Message.{Message, blank, is_empty, set_empty}
use hsqueue.Steps.Send.{Destination, send}
use hsqueue.Steps.Merge.{Merge, slot, publish_next, publish_from}

-- The messages of a stash that are not empty.
abbrev pub waiting : List Message → List Message
waiting [] = []
waiting (m ∷ ms) = if is_empty m then waiting ms else m ∷ waiting ms

-- A message taken out and an empty one put in its place.
pub waiting-set :
    (l : List Message) (i : ℕ) (e : Message)
    → is_empty (get_or l i blank) ≡ false
    → is_empty e ≡ true
    → Perm (waiting l) (get_or l i blank ∷ waiting (set l i e))
unfolding is_empty
waiting-set [] i e full empty = absurd (cc full)
waiting-set (x ∷ xs) zero e full empty = simp (full, empty) Perm.rfl
waiting-set (x ∷ xs) (suc i) e full empty = elim (Bool-cases (is_empty x)) [
  | inl none ↦ simp none (waiting-set xs i e full empty)
  | inr some ↦
      simp some (Perm.trans (Perm.cons x (waiting-set xs i e full empty)) (Perm.swap _ x _))
]

-- Messages go from the stash to the destination, and nowhere else.
pub record Moves (s s' : Merge) : Type 0 where
  pub moved : List Message
  pub delivered : s'.sent ≡ s.sent ++ moved
  pub kept : Perm (waiting s.pending) (moved ++ waiting s'.pending)
  pub same_window : s'.look_ahead ≡ s.look_ahead
  pub same_room : s'.out_message.capacity ≡ s.out_message.capacity
  pub same_length : length s'.pending ≡ length s.pending

pub Moves-refl : (s : Merge) → Moves s s
Moves-refl s = record {
  moved = [];
  delivered = sym (append-nil _);
  kept = Perm.rfl;
  same_window = refl;
  same_room = refl;
  same_length = refl;
}

pub Moves-trans : {s t u : Merge} → Moves s t → Moves t u → Moves s u
Moves-trans {s = s} {u = u} a b = record {
  moved = a.moved ++ b.moved;
  delivered =
      b.delivered ∙ ap (λ l. l ++ b.moved) a.delivered ∙ append_assoc s.sent a.moved b.moved;
  kept =
      subst (Perm (waiting s.pending)) (sym (append_assoc a.moved b.moved (waiting u.pending)))
        (Perm.trans a.kept (Perm.append_left a.moved b.kept));
  same_window = b.same_window ∙ a.same_window;
  same_room = b.same_room ∙ a.same_room;
  same_length = b.same_length ∙ a.same_length;
}

module _ (receive : Destination) where
  pub publish_next-Moves :
      (s : Merge) → is_empty (slot s s.expected) ≡ false → Moves s (publish_next receive s)
  unfolding send set_empty is_empty
  publish_next-Moves s full = record {
    moved = slot s s.expected ∷ [];
    delivered = refl;
    kept = waiting-set s.pending (s.expected % s.look_ahead) _ full refl;
    same_window = refl;
    same_room = refl;
    same_length = length-set s.pending _ _;
  }

  -- How many messages are kept.
  abbrev pub count : Merge → ℕ
  count s = length (waiting s.pending)

  pub Moves-count : {s s' : Merge} (m : Moves s s') → count s ≡ length m.moved + count s'
  Moves-count m = perm-length m.kept ∙ length-append m.moved _

  -- One message fewer is kept.
  pub publish_next-count :
      (s : Merge)
      → is_empty (slot s s.expected) ≡ false
      → count s ≡ suc (count (publish_next receive s))
  unfolding send set_empty is_empty
  publish_next-count s full =
      perm-length (waiting-set s.pending (s.expected % s.look_ahead) _ full refl)

  -- No sequence number that the step can come to expect wraps.
  abbrev pub IsNear : Merge → Type 0
  IsNear s = s.expected + count s * (s.look_ahead + 1) + s.look_ahead < w32

  pub publish_next-IsNear :
      (s : Merge)
      → is_empty (slot s s.expected) ≡ false
      → s.expected + count s * (s.look_ahead + 1) < w32
      → IsNear (publish_next receive s)
  publish_next-IsNear s full near = below (count s) _ (publish_next-count s full) near
    where
      suc_times : (c : ℕ) → suc c * (s.look_ahead + 1) ≡ c * (s.look_ahead + 1) + (s.look_ahead + 1)
      suc_times c = omega arith

      below :
          (c c' : ℕ)
          → c ≡ suc c'
          → s.expected + c * (s.look_ahead + 1) < w32
          → add32 s.expected 1 + c' * (s.look_ahead + 1) + s.look_ahead < w32
      below c c' e near = omega (
        arith,
        subst (λ k. s.expected + k < w32) (ap (λ k. k * (s.look_ahead + 1)) e ∙ suc_times c') near,
      )

  pub record Published (s s' : Merge) : Type 0 where
    pub moves : Moves s s'
    pub exhausted : is_empty (slot s' s'.expected) ≡ true
    pub near : IsNear s'

  pub publish_from-Published :
      (fuel : ℕ) (s : Merge) → count s ≤ fuel → IsNear s → Published s (publish_from receive fuel s)
  publish_from-Published zero s enough near = elim (Bool-cases (is_empty (slot s s.expected))) [
    | inl none ↦ record { moves = Moves-refl s; exhausted = none; near = near }
    | inr full ↦ absurd (omega (arith, enough, publish_next-count s full))
  ]
  publish_from-Published (suc fuel) s enough near =
      elim (Bool-cases (is_empty (slot s s.expected))) [
        | inl none ↦
            subst (Published s) (sym (if_of_true _ _ none))
              (record { moves = Moves-refl s; exhausted = none; near = near })
        | inr full ↦
            let p =
              publish_from-Published fuel (publish_next receive s)
                (omega (arith, enough, publish_next-count s full))
                (publish_next-IsNear s full (omega (arith, near))) in
            subst (Published s) (sym (if_of_false _ _ full)) (record {
              moves = Moves-trans (publish_next-Moves s full) p.moves;
              exhausted = p.exhausted;
              near = p.near;
            })
      ]

pub length-waiting : (l : List Message) → length (waiting l) ≤ length l
length-waiting [] = omega arith
length-waiting (x ∷ xs) = elim (Bool-cases (is_empty x)) [
  | inl none ↦ simp none (omega (arith, length-waiting xs))
  | inr some ↦ simp some (omega (arith, length-waiting xs))
]
