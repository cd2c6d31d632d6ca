-- ===== src/Memory/BlockPool/FreeList.antt =====
-- The free list: the offsets that lead from the root to the end by the words in the blocks.
use hsqueue.Base.{ℕ, ◌≡◌, ◌≢◌, ◌∙◌, List, [], ◌∷◌, arith, All}
use hsqueue.Memory.BlockPool.{null_offset, store}

abbrev pub Chain : (ℕ → ℕ) → ℕ → List ℕ → Type 0
Chain links root [] = root ≡ null_offset
Chain links root (o ∷ os) = (root ≡ o) × (o ≢ null_offset) × Chain links (links o) os

pub Chain-root :
    (links : ℕ → ℕ) (root root' : ℕ) (os : List ℕ)
    → root' ≡ root
    → Chain links root os
    → Chain links root' os
Chain-root links root root' [] e c = e ∙ c
Chain-root links root root' (o ∷ os) e c = (e ∙ c.0, c.1, c.2)

-- A word outside the list does not matter.
pub Chain-congr :
    (links links' : ℕ → ℕ) (root : ℕ) (os : List ℕ)
    → All (λ o. links' o ≡ links o) os
    → Chain links root os
    → Chain links' root os
Chain-congr links links' root [] same c = c
Chain-congr links links' root (o ∷ os) same c =
    (c.0, c.1, Chain-root links' _ _ os same.0 (Chain-congr links links' (links o) os same.1 c.2))

pub store_others :
    (links : ℕ → ℕ) (offset v : ℕ) (os : List ℕ)
    → All (λ o. o ≢ offset) os
    → All (λ o. store links offset v o ≡ links o) os
store_others links offset v [] h = tt
store_others links offset v (o ∷ os) h = (ground arith, store_others links offset v os h.1)
