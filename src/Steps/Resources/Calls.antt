-- ===== src/Steps/Resources/Calls.antt =====
-- The calls that `SharedResources::createResources` of src/Steps/SharedResources.cpp makes of the steps.
use mathlib.Core.List.{append_assoc, append-nil}
use hsqueue.Base.{
  ℕ, ◌≡◌, refl, sym, ap, ◌∙◌, Bool, true, false, List, [], ◌∷◌, ◌++◌, map, some, Result, ok, err,
  configuration_error, if◌then◌else◌,
}
use hsqueue.Memory.BlockPool.{MemoryPool}
use hsqueue.Steps.Resources.{
  Resources, Call, attached, validated, StepCalls, attach_all, validate_all, then_validate, pooled,
  attach_and_validate,
}

abbrev pub IsComplete : Result {0} Unit → List Call → Type 0
IsComplete (ok _) missing = missing ≡ []
IsComplete (err e) missing = Unit

-- The calls made are those of `whole` up to the one that threw, and all of them if none threw.
pub record Called (whole : List Call) (r : Resources) (answer : Result {0} Unit × Resources)
    : Type 0 where
  pub missing : List Call
  pub order : answer.1.calls ++ missing ≡ r.calls ++ whole
  pub complete : IsComplete answer.0 missing
  pub steps : answer.1.steps ≡ r.steps
  pub pool : (mp : MemoryPool) × (answer.1.pool ≡ some mp)

-- One more call, and then the others.
Called-cons :
    (call : Call) (whole : List Call) (r : Resources) (answer : Result {0} Unit × Resources)
    → Called whole (record r { calls = r.calls ++ call ∷ [] }) answer
    → Called (call ∷ whole) r answer
Called-cons call whole r answer c = record {
  missing = c.missing;
  order = c.order ∙ append_assoc r.calls (call ∷ []) whole;
  complete = c.complete;
  steps = c.steps;
  pool = c.pool;
}

attach_all-Called :
    (k : StepCalls) (l : List ℕ) (mp : MemoryPool) (r : Resources)
    → Called (map attached l) r (attach_all k l mp r)
attach_all-Called k [] mp r = record {
  missing = [];
  order = refl;
  complete = refl;
  steps = refl;
  pool = (mp, refl);
}
attach_all-Called k (step ∷ l) mp r = on (k.attach step mp) (λ mp'. attach_all-Called k l mp' r1)
  where
    r1 : Resources
    r1 = record r { calls = r.calls ++ attached step ∷ [] }

    on :
        (answer : Result {0} Unit × MemoryPool)
        → ((mp' : MemoryPool) → Called (map attached l) r1 (attach_all k l mp' r1))
        → Called (map attached (step ∷ l)) r (elim (answer.0) [
          | err e ↦ (err e, record r1 { pool = some (answer.1) })
          | ok _ ↦ attach_all k l (answer.1) r1
        ])
    on (err e, mp') rest = record {
      missing = map attached l;
      order = append_assoc r.calls (attached step ∷ []) (map attached l);
      complete = tt;
      steps = refl;
      pool = (mp', refl);
    }
    on (ok _, mp') rest = Called-cons (attached step) (map attached l) r _ (rest mp')

validate_all-Called :
    (valid : ℕ → Bool) (l : List ℕ) (r : Resources)
    → (mp : MemoryPool) × (r.pool ≡ some mp)
    → Called (map validated l) r (validate_all valid l r)
validate_all-Called valid [] r pool = record {
  missing = [];
  order = refl;
  complete = refl;
  steps = refl;
  pool = pool;
}
validate_all-Called valid (step ∷ l) r pool = on (valid step) (validate_all-Called valid l r1 pool)
  where
    r1 : Resources
    r1 = record r { calls = r.calls ++ validated step ∷ [] }

    on :
        (passes : Bool)
        → Called (map validated l) r1 (validate_all valid l r1)
        → Called
            (map validated (step ∷ l))
            r
            (if passes then validate_all valid l r1 else (err configuration_error, r1))
    on true c = Called-cons (validated step) (map validated l) r _ c
    on false c = record {
      missing = map validated l;
      order = append_assoc r.calls (validated step ∷ []) (map validated l);
      complete = tt;
      steps = refl;
      pool = pool;
    }

-- All attach, and then all validate.
abbrev pub setting_up : List ℕ → List Call
setting_up steps = map attached steps ++ map validated steps

pub attach_and_validate-Called :
    (k : StepCalls) (mp : MemoryPool) (r : Resources)
    → Called (setting_up r.steps) r (attach_and_validate k mp r)
attach_and_validate-Called k mp r =
    on (attach_all k r.steps mp (pooled r mp)) (attach_all-Called k r.steps mp (pooled r mp))
  where
    on :
        (answer : Result {0} Unit × Resources)
        → Called (map attached r.steps) (pooled r mp) answer
        → Called (setting_up r.steps) r (then_validate k r.steps answer)
    on (err e, r') c = record {
      missing = c.missing ++ map validated r.steps;
      order =
          sym (append_assoc r'.calls c.missing (map validated r.steps))
          ∙ ap (λ l. l ++ map validated r.steps) c.order
          ∙ append_assoc r.calls (map attached r.steps) (map validated r.steps);
      complete = tt;
      steps = c.steps;
      pool = c.pool;
    }
    on (ok _, r') c =
        let v = validate_all-Called k.valid r.steps r' c.pool in
        let all : r'.calls ≡ r.calls ++ map attached r.steps =
          sym (append-nil r'.calls) ∙ ap (λ l. r'.calls ++ l) (sym c.complete) ∙ c.order in
        record {
          missing = v.missing;
          order =
              v.order
              ∙ ap (λ l. l ++ map validated r.steps) all
              ∙ append_assoc r.calls (map attached r.steps) (map validated r.steps);
          complete = v.complete;
          steps = v.steps ∙ c.steps;
          pool = v.pool;
        }
