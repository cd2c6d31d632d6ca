-- ===== src/Steps/Builder/Adds.antt =====
-- What a call of src/Steps/Builder.cpp adds to the schedule, put together from what its parts add.
use hsqueue.Base.{
  ℕ, ◌+◌, ◌≡◌, refl, sym, ap, ◌∙◌, subst, Bool, true, false, ◌&&◌, List, [], ◌∷◌, ◌++◌, Option,
  none, some, if◌then◌else◌, arith,
}
use mathlib.Core.List.{append_assoc, append-nil}
use hsqueue.Steps.Builder.{Builder, new_step}

-- If the call succeeds, it made `size` steps and scheduled those of `order`, in that order.
pub record Adds (order : List ℕ) (size : ℕ) (b : Builder) (r : Bool × Builder) : Type 0 where
  pub scheduled : r.0 ≡ true → r.1.resources.steps ≡ b.resources.steps ++ order
  pub counted : r.0 ≡ true → r.1.count ≡ b.count + size

pub failed-Adds : (o : List ℕ) (n : ℕ) (b b' : Builder) → Adds o n b (false, b')
failed-Adds o n b b' = record { scheduled = λ e. cc e; counted = λ e. cc e }

pub nothing-Adds :
    (b : Builder) (c : Bool) (b' : Builder)
    → b'.resources.steps ≡ b.resources.steps
    → b'.count ≡ b.count
    → Adds [] 0 b (c, b')
nothing-Adds b c b' s n = record {
  scheduled = λ e. s ∙ sym (append-nil _);
  counted = λ e. omega (arith, n);
}

pub if-Adds :
    (c : Bool) {o o' : List ℕ} {n n' : ℕ} (b : Builder) {x y : Bool × Builder}
    → (c ≡ true → Adds o n b x)
    → (c ≡ false → Adds o' n' b y)
    → Adds (if c then o else o') (if c then n else n') b (if c then x else y)
if-Adds true b f g = f refl
if-Adds false b f g = g refl

pub made-Adds :
    (m : Option ℕ) {o : List ℕ} {n : ℕ} (b : Builder) (f : ℕ → Bool × Builder)
    → ((kind : ℕ) → Adds o n b (f kind))
    → Adds o n b (elim m [ none ↦ (false, b) | some kind ↦ f kind ])
made-Adds none b f h = failed-Adds _ _ b b
made-Adds (some kind) b f h = h kind

pub glued : (x y z o o' : List ℕ) → x ≡ y ++ o' → y ≡ z ++ o → x ≡ z ++ (o ++ o')
glued x y z o o' e f = e ∙ ap (λ l. l ++ o') f ∙ append_assoc z o o'

-- One call after another.
pub then-Adds :
    (r : Bool × Builder) {o o' : List ℕ} {n n' : ℕ} (b : Builder) {on : Bool × Builder}
    → Adds o n b r
    → (r.1.count ≡ b.count + n → Adds o' n' r.1 on)
    → Adds (o ++ o') (n + n') b (if r.0 then on else (false, r.1))
then-Adds (false, b') b h g = failed-Adds _ _ b b'
then-Adds (true, b') {o} {o'} b h g =
    let counted = h.counted refl in
    record {
      scheduled = λ e.
          glued _ b'.resources.steps b.resources.steps o o' ((g counted).scheduled e)
            (h.scheduled refl);
      counted = λ e. omega (arith, counted, (g counted).counted e);
    }

-- A step is configured and scheduled, and what follows it is made.
pub step-Adds :
    (kind : ℕ) (r : Bool × Builder) (named : Bool) {o o' : List ℕ} {n n' : ℕ} (b b' : Builder)
    (i : ℕ) {on : Bool × Builder}
    → r.1.resources.steps ++ i ∷ [] ≡ b'.resources.steps
    → b'.count ≡ r.1.count
    → Adds o n (new_step kind b) r
    → (b'.count ≡ b.count + 1 + n → Adds o' n' b' on)
    → Adds ((o ++ i ∷ []) ++ o') (1 + n + n') b (if r.0 && named then on else (false, r.1))
step-Adds kind (false, b1) named b b' i s c h g = failed-Adds _ _ b b1
step-Adds kind (true, b1) false b b' i s c h g = failed-Adds _ _ b b1
step-Adds kind (true, b1) true {o} {o'} {n} b b' i s c h g =
    let counted : b'.count ≡ b.count + 1 + n = c ∙ h.counted refl in
    record {
      scheduled = λ e.
          glued _ b'.resources.steps b.resources.steps (o ++ i ∷ []) o' ((g counted).scheduled e)
            (glued _ b1.resources.steps b.resources.steps o (i ∷ []) (sym s) (h.scheduled refl));
      counted = λ e. omega (arith, counted, (g counted).counted e);
    }

module _ (b : Builder) (o : List ℕ) (n : ℕ) (branch simple : Bool × Builder) (after : ℕ → List ℕ)
    (m : ℕ) (on : Builder → Bool × Builder) where
  abbrev goes_on : Bool × Builder → Bool × Builder
  goes_on r = if r.0 then on r.1 else (false, r.1)

  -- A parameter is handled, and those after it.
  pub handled-Adds :
      (c c' : Bool)
      → c ≡ c'
      → Adds o n b branch
      → Adds [] 0 b simple
      → ((b' : Builder) → Adds (after b'.count) m b' (on b'))
      → Adds
          (if c' then o ++ after (b.count + n) else after b.count)
          (if c' then n + m else m)
          b
          (goes_on (if c then branch else simple))
  handled-Adds true true e h g f =
      then-Adds branch b h
        (λ j. subst (λ j'. Adds (after j') m branch.1 (on branch.1)) j (f branch.1))
  handled-Adds false false e h g f =
      subst (λ z. Adds (after b.count) z b (goes_on simple)) (omega arith)
        (then-Adds simple b g (λ j.
          subst (λ j'. Adds (after j') m simple.1 (on simple.1)) (j ∙ omega arith) (f simple.1)))
  handled-Adds true false e h g f = cc e
  handled-Adds false true e h g f = cc e

-- At the root, a comment is passed over and any other key refused.
pub comment-Adds :
    (c : Bool) {o : List ℕ} {n : ℕ} (b : Builder) {x : Bool × Builder}
    → Adds o n b x
    → Adds o n b (if c then x else (false, b))
comment-Adds true b h = h
comment-Adds false b h = failed-Adds _ _ b b
