-- ===== src/Steps/Merge/Taken.antt =====
-- What src/StepLibrary/OrderedMerge.cpp does with a data message and with those that it kept: none is
-- changed and none is lost.
use hsqueue.Base.{
  ℕ, ◌<◌, ◌≡◌, ◌⊎◌, inl, inr, refl, sym, ap, ◌∙◌, subst, true, false, List, [], ◌∷◌, All, get_or,
}
use hsqueue.Message.{Message, blank, is_empty, move_to}
use hsqueue.Steps.Merge.{Merge, Stats, slot, set_slot, stash}
use hsqueue.Steps.Merge.Held.{Held, Waits, Kept, All-map}
use hsqueue.Steps.Merge.Place.{IsPlaced, slot-set_slot}

-- What goes out while a message is handled is that message or was kept, and so is what is kept
-- afterwards, each as it was. A number that waited goes on waiting until it is passed; a message that
-- is not empty has its number passed, or a message with that number waits.
pub record Taken (s : Merge) (m : Message) (s' : Merge) (out : List Message) : Type 0 where
  pub sent_known : All (λ x. (x ≡ m) ⊎ Held s x) out
  pub held_known : (x : Message) → Held s' x → (x ≡ m) ⊎ Held s x
  pub waiting_on : (q : ℕ) → Waits s q → (q < s'.expected) ⊎ Waits s' q
  pub not_lost : is_empty m ≡ false → (m.sequence < s'.expected) ⊎ Waits s' m.sequence

-- A message is sent, and then others that were kept; the step that sends them differs from `s` in the
-- number that it expects.
pub Taken-sent :
    (s : Merge) (m : Message) (expected : ℕ) (stats : Stats) (sent : List Message) (s' : Merge)
    (out : List Message)
    → Kept (record s { expected = expected; stats = stats; sent = sent }) s' out
    → m.sequence < s'.expected
    → Taken s m s' (m ∷ out)
Taken-sent s m expected stats sent s' out k on = record {
  sent_known = (inl refl, All-map out (λ x h. inr h) k.sent_held);
  held_known = λ x h. inr (k.still_held x h);
  waiting_on = λ q w. elim (k.waiting_on q w) [
    | inl passed ↦ inl passed
    | inr same ↦ inr (subst (λ y. (is_empty y ≡ false) × (y.sequence ≡ q)) (sym same) w)
  ];
  not_lost = λ full. inl on;
}

-- A message is dropped, since its number has been passed or waits.
pub Taken-dropped :
    (s : Merge) (m : Message) (stats : Stats)
    → (m.sequence < s.expected) ⊎ Waits s m.sequence
    → Taken s m (record s { stats = stats }) []
Taken-dropped s m stats known = record {
  sent_known = tt;
  held_known = λ x h. inr h;
  waiting_on = λ q w. inr w;
  not_lost = λ full. known;
}

-- A message is put into an empty slot.
pub Taken-stashed :
    (s : Merge) (m : Message) (stats : Stats) (highest : ℕ)
    → IsPlaced s
    → is_empty (slot s m.sequence) ≡ true
    → let s' = record ((stash (record s { stats = stats }) m).0) { highest_stashed = highest } in
      Taken s m s' [] × (slot s' m.sequence ≡ m)
unfolding move_to
Taken-stashed s m stats highest p free = (
  record {
    sent_known = tt;
    held_known = λ x h.
        let (q, some, e) = h in
        elim (slot-set_slot s p m.sequence m q) [
          | inl (new, _) ↦ inl (sym e ∙ new)
          | inr (old, _) ↦ inr (q, sym (ap is_empty old) ∙ some, sym old ∙ e)
        ];
    waiting_on = λ q w. elim (slot-set_slot s p m.sequence m q) [
      | inl (_, same) ↦ absurd (cc (ap (λ i. is_empty (get_or s.pending i blank)) same, w.0, free))
      | inr (old, _) ↦ inr (subst (λ y. (is_empty y ≡ false) × (y.sequence ≡ q)) (sym old) w)
    ];
    not_lost = λ full.
        inr
          (subst (λ y. (is_empty y ≡ false) × (y.sequence ≡ m.sequence)) (sym there) (full, refl));
  },
  there,
)
  where
    there : slot (set_slot s m.sequence m) m.sequence ≡ m
    there = elim (slot-set_slot s p m.sequence m m.sequence) [
      | inl (new, _) ↦ new
      | inr (_, other) ↦ absurd (other refl)
    ]
