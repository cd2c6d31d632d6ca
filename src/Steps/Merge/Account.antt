-- ===== src/Steps/Merge/Account.antt =====
-- Where the messages of a stream are after src/StepLibrary/OrderedMerge.cpp has handled them.
use mathlib.Core.List.{Mem, mem-cons_self, mem-cons_of_mem}
use hsqueue.Base.{
  ℕ, ◌<◌, ◌≤◌, ◌≡◌, ◌⊎◌, inl, inr, sym, subst, true, List, [], ◌∷◌, ◌++◌, All, arith, Bool-cases,
}
use hsqueue.Message.{Message, is_empty}
use hsqueue.Steps.Merge.{Merge}
use hsqueue.Steps.Merge.Held.{Held, Waits}
use hsqueue.Steps.Merge.Taken.{Taken}

-- Of a message that came: it has no contents, or its number has been passed, or waits.
abbrev pub IsAccounted : Merge → Message → Type 0
IsAccounted s x = (is_empty x ≡ true) ⊎ ((x.sequence < s.expected) ⊎ Waits s x.sequence)

-- The same as `Taken`, for a stream of messages.
pub record TakenAll (s : Merge) (ms : List Message) (s' : Merge) (out : List Message) : Type 0 where
  pub sent_known : All (λ x. Mem x ms ⊎ Held s x) out
  pub held_known : (x : Message) → Held s' x → Mem x ms ⊎ Held s x
  pub waiting_on : (q : ℕ) → Waits s q → (q < s'.expected) ⊎ Waits s' q
  pub accounted : All (IsAccounted s') ms

pub TakenAll-nil : (s : Merge) → TakenAll s [] s []
TakenAll-nil s = record {
  sent_known = tt;
  held_known = λ x h. inr h;
  waiting_on = λ q w. inr w;
  accounted = tt;
}

pub TakenAll-cons :
    (s t u : Merge) (m : Message) (ms : List Message) (out out' : List Message)
    → Taken s m t out
    → TakenAll t ms u out'
    → t.expected ≤ u.expected
    → TakenAll s (m ∷ ms) u (out ++ out')
TakenAll-cons s t u m ms out out' a b le = record {
  sent_known = together out (before out a.sent_known) (after_that out' b.sent_known);
  held_known = λ x h. first x (b.held_known x h);
  waiting_on = λ q w. later q (a.waiting_on q w);
  accounted = (
    elim (Bool-cases (is_empty m)) [
      | inl none ↦ inl none
      | inr full ↦ inr (later m.sequence (a.not_lost full))
    ],
    b.accounted,
  );
}
  where
    Known : Message → Type 0
    Known x = Mem x (m ∷ ms) ⊎ Held s x

    one : (x : Message) → (x ≡ m) ⊎ Held s x → Known x
    one x (inl e) = inl (subst (λ y. Mem y (m ∷ ms)) (sym e) mem-cons_self)
    one x (inr h) = inr h

    first : (x : Message) → Mem x ms ⊎ Held t x → Known x
    first x (inl i) = inl (mem-cons_of_mem m i)
    first x (inr h) = one x (a.held_known x h)

    before : (l : List Message) → All (λ x. (x ≡ m) ⊎ Held s x) l → All Known l
    before [] h = tt
    before (x ∷ l) h = (one x h.0, before l h.1)

    after_that : (l : List Message) → All (λ x. Mem x ms ⊎ Held t x) l → All Known l
    after_that [] h = tt
    after_that (x ∷ l) h = (first x h.0, after_that l h.1)

    together : (l : List Message) → All Known l → All Known out' → All Known (l ++ out')
    together [] h k = k
    together (x ∷ l) h k = (h.0, together l h.1 k)

    later : (q : ℕ) → (q < t.expected) ⊎ Waits t q → (q < u.expected) ⊎ Waits u q
    later q (inl passed) = inl (omega (arith, passed, le))
    later q (inr w) = b.waiting_on q w
