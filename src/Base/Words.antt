-- ===== src/Base/Words.antt =====
-- Machine words. `size_t`, `uint64_t` and `Position` have 64 bits, `uint32_t`, `Offset` and message
-- sequence numbers 32.
use Prim.Native.Nat.{ℕ, ◌+◌, ◌-◌, ◌*◌, ◌/◌, ◌%◌, ◌^◌}
use mathlib.Core.Path.{◌≡◌, ap, ◌∙◌}
use native.Mathlib.Omega.{arith}
use native.Mathlib.Nat.{mod-add-div', add-mul-mod_self_right}

abbrev pub w64 : ℕ
w64 = 2 ^ 64

abbrev pub w32 : ℕ
w32 = 2 ^ 32

abbrev pub add64 : ℕ → ℕ → ℕ
add64 a b = (a + b) % w64

abbrev pub mul64 : ℕ → ℕ → ℕ
mul64 a b = a * b % w64

abbrev pub sub64 : ℕ → ℕ → ℕ
sub64 a b = (a + w64 - b) % w64

abbrev pub add32 : ℕ → ℕ → ℕ
add32 a b = (a + b) % w32

abbrev pub sub32 : ℕ → ℕ → ℕ
sub32 a b = (a + w32 - b) % w32

module _ (count n : ℕ) where
  pub split_succ : n + 1 ≡ (n % count + 1) + n / count * count
  split_succ = omega (arith, mod-add-div' n count)

  -- A step of a count that is taken modulo another.
  pub mod_succ : (n + 1) % count ≡ (n % count + 1) % count
  mod_succ =
      ap (λ k. k % count) split_succ ∙ add-mul-mod_self_right (n % count + 1) (n / count) count
