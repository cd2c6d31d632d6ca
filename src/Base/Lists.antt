-- ===== src/Base/Lists.antt =====
-- Lists measured and indexed by native numbers, under the library's names.
use hsqueue.Base.Tests.{◌==◌, if◌then◌else◌}
use Prim.Native.Nat.{ℕ, zero, suc, ◌+◌, ◌<◌, ◌≤◌}
use mathlib.Core.Path.{◌≡◌, refl, sym, ap, ap₂, ◌∙◌}
use mathlib.Core.Logic.{◌≢◌}
use mathlib.Core.List
use mathlib.Core.List.{List, [], ◌∷◌, ◌++◌, Mem, Perm, mem-cons_self, mem-cons_of_mem}
use mathlib.Core.List.Perm
use native.Mathlib.Bridge.{from_ℕ}
use mathlib.Core.Option.{Option, none, some}
use native.Mathlib.Nat.{add-zero, add_assoc}
use native.Mathlib.Omega.{arith}

-- The function with another value at one place.
abbrev pub update {ℓ} : {A : Type ℓ} → (ℕ → A) → ℕ → A → ℕ → A
update f i a j = if i == j then a else f j

module _ {ℓ} {A : Type ℓ} where
  abbrev pub length : List A → ℕ
  length [] = 0
  length (x ∷ xs) = suc (length xs)

  abbrev pub get_elem? : List A → ℕ → Option A
  get_elem? [] i = none
  get_elem? (x ∷ xs) zero = some x
  get_elem? (x ∷ xs) (suc i) = get_elem? xs i

  abbrev pub get_or : List A → ℕ → A → A
  get_or [] i d = d
  get_or (x ∷ xs) zero d = x
  get_or (x ∷ xs) (suc i) d = get_or xs i d

  -- A write out of bounds changes nothing.
  abbrev pub set : List A → ℕ → A → List A
  set [] i v = []
  set (x ∷ xs) zero v = v ∷ xs
  set (x ∷ xs) (suc i) v = x ∷ set xs i v

  abbrev pub replicate : ℕ → A → List A
  replicate zero a = []
  replicate (suc n) a = a ∷ replicate n a

  pub length-append : (xs ys : List A) → length (xs ++ ys) ≡ length xs + length ys
  length-append [] ys = omega arith
  length-append (x ∷ xs) ys = omega (arith, length-append xs ys)

module _ {ℓ} {A : Type ℓ} where
  pub length-set : (xs : List A) (i : ℕ) (v : A) → length (set xs i v) ≡ length xs
  length-set [] i v = refl
  length-set (x ∷ xs) zero v = refl
  length-set (x ∷ xs) (suc i) v = ap suc (length-set xs i v)

  pub get_or-set_self :
      (xs : List A) (i : ℕ) (v d : A) → i < length xs → get_or (set xs i v) i d ≡ v
  get_or-set_self [] i v d h = elim h [ ]
  get_or-set_self (x ∷ xs) zero v d h = refl
  get_or-set_self (x ∷ xs) (suc i) v d h = get_or-set_self xs i v d (omega arith)

  pub get_or-set_ne :
      (xs : List A) (i j : ℕ) (v d : A) → i ≢ j → get_or (set xs i v) j d ≡ get_or xs j d
  get_or-set_ne [] i j v d h = refl
  get_or-set_ne (x ∷ xs) zero zero v d h = absurd (h refl)
  get_or-set_ne (x ∷ xs) zero (suc j) v d h = refl
  get_or-set_ne (x ∷ xs) (suc i) zero v d h = refl
  get_or-set_ne (x ∷ xs) (suc i) (suc j) v d h = get_or-set_ne xs i j v d (λ e. h (ap suc e))

  pub length-replicate : (n : ℕ) (a : A) → length (replicate n a) ≡ n
  length-replicate zero a = refl
  length-replicate (suc n) a = ap suc (length-replicate n a)

-- `f i, f (i + 1), …`, `n` values in all.
abbrev pub tabulate {ℓ} : {A : Type ℓ} → (ℕ → A) → ℕ → ℕ → List A
tabulate f i zero = []
tabulate f i (suc n) = f i ∷ tabulate f (i + 1) n

abbrev pub All {ℓ κ} : {A : Type ℓ} → (A → Type κ) → List A → Type κ
All P [] = Unit
All P (x ∷ xs) = P x × All P xs

pub length-tabulate {ℓ} : {A : Type ℓ} (f : ℕ → A) (i n : ℕ) → length (tabulate f i n) ≡ n
length-tabulate f i zero = refl
length-tabulate f i (suc n) = ap suc (length-tabulate f (i + 1) n)

pub tabulate-append {ℓ} :
    {A : Type ℓ} (f : ℕ → A) (i n k : ℕ)
    → tabulate f i n ++ tabulate f (i + n) k ≡ tabulate f i (n + k)
tabulate-append f i zero k = rw (zero_plus k, plus_zero i)
  where
    zero_plus : (k : ℕ) → zero + k ≡ k
    zero_plus k = omega arith

    plus_zero : (i : ℕ) → i + zero ≡ i
    plus_zero i = omega arith
tabulate-append f i (suc n) k =
    rw (suc_plus n k, shift i n) (ap (λ l. f i ∷ l) (tabulate-append f (i + 1) n k))
  where
    suc_plus : (n k : ℕ) → suc n + k ≡ suc (n + k)
    suc_plus n k = omega arith

    shift : (i n : ℕ) → i + suc n ≡ i + 1 + n
    shift i n = omega arith

-- Two functions that agree on a range give the same list.
pub tabulate_congr {ℓ} :
    {A : Type ℓ} (f g : ℕ → A) (i n : ℕ)
    → ((j : ℕ) → i ≤ j → j < i + n → f j ≡ g j)
    → tabulate f i n ≡ tabulate g i n
tabulate_congr f g i zero h = refl
tabulate_congr f g i (suc n) h =
    rw (h i (omega arith) (omega arith)) (
      ap (λ l. g i ∷ l) (tabulate_congr f g (i + 1) n (λ j lo hi. h j (omega arith) (omega arith))))

pub tabulate_shift {ℓ} :
    {A : Type ℓ} (f g : ℕ → A) (i k n : ℕ)
    → ((j : ℕ) → j < n → f (i + j) ≡ g (k + j))
    → tabulate f i n ≡ tabulate g k n
tabulate_shift f g i k zero h = refl
tabulate_shift f g i k (suc n) h =
    ap₂ ◌∷◌ (plus_zero (h 0 (omega arith)))
      (tabulate_shift f g (i + 1) (k + 1) n (λ j lt. next j (h (1 + j) (omega arith))))
  where
    plus_zero : f (i + 0) ≡ g (k + 0) → f i ≡ g k
    plus_zero e = cc (ap f (add-zero i), ap g (add-zero k))

    next : (j : ℕ) → f (i + (1 + j)) ≡ g (k + (1 + j)) → f (i + 1 + j) ≡ g (k + 1 + j)
    next j e = cc (ap f (add_assoc i 1 j), ap g (add_assoc k 1 j))

length-from_ℕ {ℓ} : {A : Type ℓ} (xs : List A) → from_ℕ (List.length xs) ≡ length xs
length-from_ℕ [] = refl
length-from_ℕ (x ∷ xs) = ap suc (length-from_ℕ xs)

pub perm-length {ℓ} : {A : Type ℓ} {xs ys : List A} → Perm xs ys → length xs ≡ length ys
perm-length {xs = xs} {ys = ys} p =
    sym (length-from_ℕ xs) ∙ ap from_ℕ (Perm.length-eq p) ∙ length-from_ℕ ys

pub All-intro {ℓ κ} :
    {A : Type ℓ} (P : A → Type κ) (l : List A) → ((a : A) → Mem a l → P a) → All P l
All-intro P [] h = tt
All-intro P (x ∷ xs) h = (h x mem-cons_self, All-intro P xs (λ a m. h a (mem-cons_of_mem x m)))
