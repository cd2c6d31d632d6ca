-- ===== src/Steps/Resources/Ending.antt =====
-- How `SharedResources::createResources` of src/Steps/SharedResources.cpp ends, by what the steps do
-- when they are called.
use mathlib.Core.List.{append_assoc, append-nil}
use hsqueue.Base.{
  ℕ, ◌≡◌, refl, sym, ap, ◌∙◌, Bool, true, false, List, [], ◌∷◌, ◌++◌, map, some, Result, ok, err,
  Error, configuration_error, if◌then◌else◌, ◌⊎◌, inl, inr, All,
}
use hsqueue.Memory.BlockPool.{MemoryPool}
use hsqueue.Steps.Resources.{
  Resources, attached, validated, StepCalls, attach_all, validate_all, then_validate, pooled,
  attach_and_validate,
}

-- Each of the steps can attach, to the pool that those before it left; the last leaves the last pool.
abbrev pub Attaches : StepCalls → List ℕ → MemoryPool → MemoryPool → Type 0
Attaches k [] mp last = mp ≡ last
Attaches k (step ∷ steps) mp last =
    (mid : MemoryPool) × (k.attach step mp ≡ (ok tt, mid)) × Attaches k steps mid last

-- Those before a step can attach and the step throws; no other is called.
pub record Refused (k : StepCalls) (steps : List ℕ) (mp : MemoryPool) (e : Error) (r r' : Resources)
    : Type 0 where
  pub before : List ℕ
  pub step : ℕ
  pub after : List ℕ
  pub mid : MemoryPool
  pub last : MemoryPool
  pub split : steps ≡ before ++ step ∷ after
  pub passed : Attaches k before mp mid
  pub threw : k.attach step mid ≡ (err e, last)
  pub pool : r'.pool ≡ some last
  pub calls : r'.calls ≡ r.calls ++ map attached (before ++ step ∷ [])

-- Those before a step are valid and the step is not; no other is called.
pub record Invalid (k : StepCalls) (steps : List ℕ) (e : Error) (r r' : Resources) : Type 0 where
  pub before : List ℕ
  pub step : ℕ
  pub after : List ℕ
  pub split : steps ≡ before ++ step ∷ after
  pub passed : All (λ s. k.valid s ≡ true) before
  pub threw : k.valid step ≡ false
  pub error : e ≡ configuration_error
  pub pool : r'.pool ≡ r.pool
  pub calls : r'.calls ≡ r.calls ++ map validated (before ++ step ∷ [])

abbrev AttachEnd :
    StepCalls → List ℕ → MemoryPool → Resources → Result {0} Unit × Resources → Type 0
AttachEnd k steps mp r (ok _, r') =
    (last : MemoryPool) × Attaches k steps mp last
    × (r'.pool ≡ some last)
    × (r'.calls ≡ r.calls ++ map attached steps)
AttachEnd k steps mp r (err e, r') = Refused k steps mp e r r'

abbrev ValidEnd : StepCalls → List ℕ → Resources → Result {0} Unit × Resources → Type 0
ValidEnd k steps r (ok _, r') = All (λ s. k.valid s ≡ true) steps × (r'.pool ≡ r.pool)
ValidEnd k steps r (err e, r') = Invalid k steps e r r'

-- The call returns where all can attach and all are valid. It throws what the first step throws that
-- cannot attach; where all can, it throws for the first that is not valid.
abbrev pub IsEnding :
    StepCalls → List ℕ → MemoryPool → Resources → Result {0} Unit × Resources → Type 0
IsEnding k steps mp r (ok _, r') =
    (last : MemoryPool) × Attaches k steps mp last
    × All (λ s. k.valid s ≡ true) steps
    × (r'.pool ≡ some last)
IsEnding k steps mp r (err e, r') =
    Refused k steps mp e r r'
    ⊎ ((last : MemoryPool) × (mid : Resources) × Attaches k steps mp last
        × (mid.pool ≡ some last)
        × (mid.calls ≡ r.calls ++ map attached steps)
        × Invalid k steps e mid r')

AttachEnd-cons :
    (k : StepCalls) (step : ℕ) (l : List ℕ) (mp mid : MemoryPool) (r : Resources)
    (answer : Result {0} Unit × Resources)
    → k.attach step mp ≡ (ok tt, mid)
    → AttachEnd k l mid (record r { calls = r.calls ++ attached step ∷ [] }) answer
    → AttachEnd k (step ∷ l) mp r answer
AttachEnd-cons k step l mp mid r (ok _, r') one (last, passed, pool, calls) =
    (last, (mid, one, passed), pool, calls ∙ append_assoc r.calls (attached step ∷ []) _)
AttachEnd-cons k step l mp mid r (err e, r') one c = record {
  before = step ∷ c.before;
  step = c.step;
  after = c.after;
  mid = c.mid;
  last = c.last;
  split = ap (λ u. step ∷ u) c.split;
  passed = (mid, one, c.passed);
  threw = c.threw;
  pool = c.pool;
  calls = c.calls ∙ append_assoc r.calls (attached step ∷ []) _;
}

attach_all-AttachEnd :
    (k : StepCalls) (l : List ℕ) (mp : MemoryPool) (r : Resources)
    → AttachEnd k l mp r (attach_all k l mp r)
attach_all-AttachEnd k [] mp r = (mp, refl, refl, sym (append-nil r.calls))
attach_all-AttachEnd k (step ∷ l) mp r =
    on (k.attach step mp) refl (λ mp'. attach_all-AttachEnd k l mp' r1)
  where
    r1 : Resources
    r1 = record r { calls = r.calls ++ attached step ∷ [] }

    on :
        (answer : Result {0} Unit × MemoryPool)
        → k.attach step mp ≡ answer
        → ((mp' : MemoryPool) → AttachEnd k l mp' r1 (attach_all k l mp' r1))
        → AttachEnd k (step ∷ l) mp r (elim (answer.0) [
          | err e ↦ (err e, record r1 { pool = some (answer.1) })
          | ok _ ↦ attach_all k l (answer.1) r1
        ])
    on (err e, mp') one rest = record {
      before = [];
      step = step;
      after = l;
      mid = mp;
      last = mp';
      split = refl;
      passed = refl;
      threw = one;
      pool = refl;
      calls = refl;
    }
    on (ok _, mp') one rest = AttachEnd-cons k step l mp mp' r _ one (rest mp')

ValidEnd-cons :
    (k : StepCalls) (step : ℕ) (l : List ℕ) (r : Resources) (answer : Result {0} Unit × Resources)
    → k.valid step ≡ true
    → ValidEnd k l (record r { calls = r.calls ++ validated step ∷ [] }) answer
    → ValidEnd k (step ∷ l) r answer
ValidEnd-cons k step l r (ok _, r') one (passed, pool) = ((one, passed), pool)
ValidEnd-cons k step l r (err e, r') one c = record {
  before = step ∷ c.before;
  step = c.step;
  after = c.after;
  split = ap (λ u. step ∷ u) c.split;
  passed = (one, c.passed);
  threw = c.threw;
  error = c.error;
  pool = c.pool;
  calls = c.calls ∙ append_assoc r.calls (validated step ∷ []) _;
}

validate_all-ValidEnd :
    (k : StepCalls) (l : List ℕ) (r : Resources) → ValidEnd k l r (validate_all k.valid l r)
validate_all-ValidEnd k [] r = (tt, refl)
validate_all-ValidEnd k (step ∷ l) r = on (k.valid step) refl (validate_all-ValidEnd k l r1)
  where
    r1 : Resources
    r1 = record r { calls = r.calls ++ validated step ∷ [] }

    on :
        (passes : Bool)
        → k.valid step ≡ passes
        → ValidEnd k l r1 (validate_all k.valid l r1)
        → ValidEnd k
            (step ∷ l)
            r
            (if passes then validate_all k.valid l r1 else (err configuration_error, r1))
    on true one c = ValidEnd-cons k step l r _ one c
    on false one c = record {
      before = [];
      step = step;
      after = l;
      split = refl;
      passed = tt;
      threw = one;
      error = refl;
      pool = refl;
      calls = refl;
    }

pub attach_and_validate-IsEnding :
    (k : StepCalls) (mp : MemoryPool) (r : Resources)
    → IsEnding k r.steps mp r (attach_and_validate k mp r)
attach_and_validate-IsEnding k mp r =
    on (attach_all k r.steps mp (pooled r mp)) (attach_all-AttachEnd k r.steps mp (pooled r mp))
  where
    valid :
        (last : MemoryPool) (mid : Resources) (answer : Result {0} Unit × Resources)
        → Attaches k r.steps mp last
        → mid.pool ≡ some last
        → mid.calls ≡ r.calls ++ map attached r.steps
        → ValidEnd k r.steps mid answer
        → IsEnding k r.steps mp r answer
    valid last mid (ok _, r') passed pool calls (all, kept) = (last, passed, all, kept ∙ pool)
    valid last mid (err e, r') passed pool calls c = inr (last, mid, passed, pool, calls, c)

    on :
        (answer : Result {0} Unit × Resources)
        → AttachEnd k r.steps mp (pooled r mp) answer
        → IsEnding k r.steps mp r (then_validate k r.steps answer)
    on (err e, r') c = inl (record {
      before = c.before;
      step = c.step;
      after = c.after;
      mid = c.mid;
      last = c.last;
      split = c.split;
      passed = c.passed;
      threw = c.threw;
      pool = c.pool;
      calls = c.calls;
    })
    on (ok _, mid) (last, passed, pool, calls) =
        valid last mid _ passed pool calls (validate_all-ValidEnd k r.steps mid)
