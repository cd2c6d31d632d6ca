-- ===== src/Steps/Builder/Kept.antt =====
-- `SharedResources::createResources` of src/Steps/SharedResources.cpp leaves the schedule as it is.
use hsqueue.Base.{
  ℕ, ◌≡◌, refl, subst, Bool, true, false, List, Option, none, some, Result, ok, err, if◌then◌else◌,
  ◌==◌,
}
use hsqueue.Memory.BlockPool.{MemoryPool, make_memory_pool}
use hsqueue.Steps.Resources.{Resources, StepCalls, create_resources, attach_and_validate}
use hsqueue.Steps.Resources.Calls.{attach_and_validate-Called}

abbrev Answer : Type 0
Answer = Option (Result {0} Unit × Resources)

abbrev Keeps : List ℕ → Answer → Type 0
Keeps l none = Unit
Keeps l (some (answer, r)) = r.steps ≡ l

if-Keeps :
    (c : Bool) (l : List ℕ) (x y : Answer) → Keeps l x → Keeps l y → Keeps l (if c then x else y)
if-Keeps true l x y h g = h
if-Keeps false l x y h g = g

made-Keeps :
    (made : Result (Option MemoryPool)) (k : StepCalls) (r : Resources)
    → Keeps r.steps (elim made [
      | err e ↦ some (err e, r)
      | ok none ↦ none
      | ok (some mp) ↦ some (attach_and_validate k mp r)
    ])
made-Keeps (err e) k r = refl
made-Keeps (ok none) k r = tt
made-Keeps (ok (some mp)) k r = (attach_and_validate-Called k mp r).steps

pub create_resources-steps :
    (sizeof_pool base : ℕ) (links : ℕ → ℕ) (k : StepCalls) (r : Resources)
    (answer : Result {0} Unit) (r' : Resources)
    → create_resources sizeof_pool base links k r ≡ some (answer, r')
    → r'.steps ≡ r.steps
unfolding create_resources
create_resources-steps sizeof_pool base links k r answer r' e = subst (Keeps r.steps) e (
    if-Keeps (r.messages_needed == 0) r.steps _ _ refl (
      if-Keeps (r.largest_message_size == 0) r.steps _ _ refl (
        made-Keeps
          (make_memory_pool sizeof_pool base links r.largest_message_size r.messages_needed) k r)))
