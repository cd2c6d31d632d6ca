-- ===== src/Steps/Merge/Held.antt =====
-- What is in the slots of src/StepLibrary/OrderedMerge.cpp, and what becomes of it while messages go
-- out.
use hsqueue.Base.{
  ℕ, ◌<◌, ◌≤◌, ◌≡◌, ◌⊎◌, inl, inr, refl, sym, ◌∙◌, subst, false, List, [], ◌∷◌, All, arith,
}
use hsqueue.Message.{Message, is_empty}
use hsqueue.Steps.Merge.{Merge, slot}

-- A message that a slot keeps; an empty message is none.
abbrev pub Held : Merge → Message → Type 0
Held s x = (q : ℕ) × (is_empty (slot s q) ≡ false) × (slot s q ≡ x)

-- A slot keeps a message with the number.
abbrev pub Waits : Merge → ℕ → Type 0
Waits s q = (is_empty (slot s q) ≡ false) × ((slot s q).sequence ≡ q)

-- While `out` goes out: it comes from the slots, as it stood there; what is kept afterwards was kept
-- before; and a message that waited has been passed, or is still in its slot, as it was.
pub record Kept (s s' : Merge) (out : List Message) : Type 0 where
  pub sent_held : All (Held s) out
  pub still_held : (x : Message) → Held s' x → Held s x
  pub waiting_on : (q : ℕ) → Waits s q → (q < s'.expected) ⊎ (slot s' q ≡ slot s q)

pub Kept-refl : (s : Merge) → Kept s s []
Kept-refl s = record { sent_held = tt; still_held = λ x h. h; waiting_on = λ q w. inr refl }

pub All-map :
    {P Q : Message → Type 0} (l : List Message) → ((x : Message) → P x → Q x) → All P l → All Q l
All-map [] f h = tt
All-map (x ∷ l) f h = (f x h.0, All-map l f h.1)

-- One message, and then others.
pub Kept-cons :
    (s t u : Merge) (m : Message) (out : List Message)
    → Held s m
    → ((x : Message) → Held t x → Held s x)
    → ((q : ℕ) → Waits s q → (q < t.expected) ⊎ (slot t q ≡ slot s q))
    → t.expected ≤ u.expected
    → Kept t u out
    → Kept s u (m ∷ out)
Kept-cons s t u m out here before waiting le k = record {
  sent_held = (here, All-map out before k.sent_held);
  still_held = λ x h. before x (k.still_held x h);
  waiting_on = λ q w. elim (waiting q w) [
    | inl passed ↦ inl (omega (arith, passed, le))
    | inr same ↦
        elim (k.waiting_on q (subst (λ y. (is_empty y ≡ false) × (y.sequence ≡ q)) (sym same) w)) [
          | inl passed ↦ inl passed
          | inr same' ↦ inr (same' ∙ same)
        ]
  ];
}
