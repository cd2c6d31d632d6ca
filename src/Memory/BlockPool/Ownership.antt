-- ===== src/Memory/BlockPool/Ownership.antt =====
-- Who owns which block, for any interleaving of the calls on a pool and of writes by the owners of
-- blocks. Each call holds the pool's spin lock, so calls follow one another.
use mathlib.Core.List.{Mem, Perm, Pairwise, Pairwise-append, perm_middle}
use mathlib.Core.List.{mem-cons_self}
use mathlib.Core.List.Perm
use mathlib.Core.Path.{subst₂}
use mathlib.Core.HLevel.{¬_prop}
use hsqueue.Base.{
  ℕ, ◌+◌, ◌≤◌, ◌<◌, ◌≡◌, ◌≢◌, refl, ◌∙◌, subst, List, [], ◌∷◌, ◌++◌, arith, All, true, false, ok,
  length, ◌==◌, if◌then◌else◌, length-append, perm-length, All-intro,
}
use hsqueue.Message.{Message}
use hsqueue.Memory.BlockPool.{BlockPool, null_offset, store, try_allocate, release}
use hsqueue.Memory.BlockPool.FreeList.{Chain, Chain-congr, Chain-root, store_others}

-- A pool, and the offsets of the blocks that messages hold.
pub record State : Type 0 where
  pub pool : BlockPool
  pub held : List ℕ

-- Outside every block that is held.
abbrev pub IsOutside : BlockPool → List ℕ → ℕ → Type 0
IsOutside p held o = (h : ℕ) → Mem h held → ¬ ((o < h + p.block_size) × (h ≤ o))

pub data Step (s : State) : State → Type 0 where
  take :
      (m : Message) {p : BlockPool} {m' : Message}
      → try_allocate s.pool m ≡ (true, p, m')
      → Step s (record { pool = p; held = m'.offset ∷ s.held })
  refuse :
      (m : Message) {p : BlockPool} {m' : Message}
      → try_allocate s.pool m ≡ (false, p, m')
      → Step s (record { pool = p; held = s.held })
  give :
      (m : Message) {p : BlockPool} {m' : Message} {rest : List ℕ}
      → Perm s.held (m.offset ∷ rest)
      → release s.pool m ≡ ok (p, m')
      → Step s (record { pool = p; held = rest })
  write :
      (links : ℕ → ℕ)
      → ((o : ℕ) → IsOutside s.pool s.held o → links o ≡ s.pool.links o)
      → Step s (record s { pool = record (s.pool) { links = links } })

pub data Reach (s : State) : State → Type 0 where
  here : Reach s s
  next : {t u : State} → Reach s t → Step t u → Reach s u

-- Two blocks of a size with no byte in common.
abbrev pub Apart : ℕ → ℕ → ℕ → Type 0
Apart size o h = ¬ ((o < h + size) × (h < o + size))

-- Every block of `all` is in the free list or held, once.
pub record IsSound (all : List ℕ) (size : ℕ) (s : State) : Type 0 where
  pub free : List ℕ
  pub chain : Chain s.pool.links s.pool.root_offset free
  pub shared : Perm (free ++ s.held) all
  pub sized : s.pool.block_size ≡ size

-- `all` are blocks: apart, and none at the end mark.
pub record IsBlocks (all : List ℕ) (size : ℕ) : Type 0 where
  pub some_bytes : 0 < size
  pub apart : Pairwise (Apart size) all
  pub live : (o : ℕ) → Mem o all → o ≢ null_offset

module _ {all : List ℕ} {size : ℕ} (blocks : IsBlocks all size) where
  perm-Apart : (l : List ℕ) → Perm l all → Pairwise (Apart size) l
  perm-Apart l p =
      Perm.pairwise (λ a b. ¬_prop) (λ x y n e. n (e.1, e.0)) (Perm.symm p) blocks.apart

  perm-live : (l : List ℕ) → Perm l all → (o : ℕ) → Mem o l → o ≢ null_offset
  perm-live l p o m = blocks.live o (Perm.subset p o m)

  cross :
      (l k : List ℕ)
      → Pairwise (Apart size) (l ++ k)
      → (o : ℕ) → Mem o l
      → (h : ℕ) → Mem h k
      → Apart size o h
  cross l k p = ((Pairwise-append (λ a b. ¬_prop) {l₁ = l} {l₂ = k}).0 p).2

  -- A free block is outside every held one.
  free-IsOutside :
      (free held : List ℕ) (p : BlockPool)
      → Perm (free ++ held) all
      → p.block_size ≡ size
      → (o : ℕ) → Mem o free
      → IsOutside p held o
  free-IsOutside free held p shared sized o mo h mh (a, b) =
      cross free held (perm-Apart (free ++ held) shared) o mo h mh
        (omega arith, omega (arith, blocks.some_bytes))

  free-ne :
      (o : ℕ) (free held : List ℕ) → Perm (free ++ o ∷ held) all → (f : ℕ) → Mem f free → f ≢ o
  free-ne o free held shared f mf e =
      cross free (o ∷ held) (perm-Apart (free ++ o ∷ held) shared) f mf o mem-cons_self
        (omega (arith, blocks.some_bytes), omega (arith, blocks.some_bytes))

-- What `tryAllocate` takes is the first block of the free list.
taken :
    (p : BlockPool) (m : Message) (free : List ℕ) {p' : BlockPool} {m' : Message}
    → Chain p.links p.root_offset free
    → try_allocate p m ≡ (true, p', m')
    → (os : List ℕ) × (free ≡ m'.offset ∷ os)
      × Chain p'.links p'.root_offset os
      × (p'.block_size ≡ p.block_size)
unfolding try_allocate
taken p m [] c e = absurd (ground arith)
taken p m (o ∷ os) {p'} c e =
    (os, ground arith, subst₂ (λ l r. Chain l r os) same next c.2, ground arith)
  where
    same : p.links ≡ p'.links
    same = ground arith

    next : p.links o ≡ p'.root_offset
    next = ground arith

refused :
    (p : BlockPool) (m : Message) {p' : BlockPool} {m' : Message}
    → try_allocate p m ≡ (false, p', m')
    → p ≡ p'
unfolding try_allocate
refused p m e = ground arith

-- What `release` puts in front of the free list is the block of the message.
given :
    (p : BlockPool) (m : Message) (free : List ℕ) {p' : BlockPool} {m' : Message}
    → Chain p.links p.root_offset free
    → All (λ o. o ≢ m.offset) free
    → m.offset ≢ null_offset
    → release p m ≡ ok (p', m')
    → Chain p'.links p'.root_offset (m.offset ∷ free) × (p'.block_size ≡ p.block_size)
unfolding release
given p m free {p'} c others live e =
    (subst₂ (λ l r. Chain l r (m.offset ∷ free)) same root stored, ground arith)
  where
    links : ℕ → ℕ
    links = store p.links m.offset p.root_offset

    same : links ≡ p'.links
    same = ground arith

    root : m.offset ≡ p'.root_offset
    root = ground arith

    stored : Chain links m.offset (m.offset ∷ free)
    stored = (
      refl,
      live,
      Chain-root links p.root_offset (links m.offset) free (ground arith)
          (Chain-congr p.links links p.root_offset free (store_others p.links _ _ free others) c),
    )

module _ {all : List ℕ} {size : ℕ} (blocks : IsBlocks all size) {s : State}
    (v : IsSound all size s) where
  open v use {free, chain, shared, sized}

  take-IsSound :
      (m : Message) {p : BlockPool} {m' : Message}
      → try_allocate s.pool m ≡ (true, p, m')
      → IsSound all size (record { pool = p; held = m'.offset ∷ s.held })
  take-IsSound m {m'} e =
      let (os, split, chain', kept) = taken s.pool m free chain e in
      record {
        free = os;
        chain = chain';
        shared =
            Perm.trans (perm_middle os s.held) (subst (λ l. Perm (l ++ s.held) all) split shared);
        sized = kept ∙ sized;
      }

  refuse-IsSound :
      (m : Message) {p : BlockPool} {m' : Message}
      → try_allocate s.pool m ≡ (false, p, m')
      → IsSound all size (record { pool = p; held = s.held })
  refuse-IsSound m e =
      subst (λ q. IsSound all size (record { pool = q; held = s.held })) (refused s.pool m e) v

  -- The first word of the block is written, which no free block shares.
  give-IsSound :
      (m : Message) {p : BlockPool} {m' : Message} {rest : List ℕ}
      → Perm s.held (m.offset ∷ rest)
      → release s.pool m ≡ ok (p, m')
      → IsSound all size (record { pool = p; held = rest })
  give-IsSound m {p} {rest} was e = record {
    free = m.offset ∷ free;
    chain = back.0;
    shared = moved;
    sized = back.1 ∙ sized;
  }
    where
      whole : Perm (free ++ m.offset ∷ rest) all
      whole = Perm.trans (Perm.append_left free (Perm.symm was)) shared

      moved : Perm (m.offset ∷ free ++ rest) all
      moved = Perm.trans (Perm.symm (perm_middle free rest)) whole

      back : Chain p.links p.root_offset (m.offset ∷ free) × (p.block_size ≡ s.pool.block_size)
      back =
          given s.pool m free chain
            (All-intro _ free (λ o mo. free-ne blocks m.offset free rest whole o mo))
            (perm-live blocks _ moved m.offset mem-cons_self) e

  write-IsSound :
      (links : ℕ → ℕ)
      → ((o : ℕ) → IsOutside s.pool s.held o → links o ≡ s.pool.links o)
      → IsSound all size (record s { pool = record (s.pool) { links = links } })
  write-IsSound links same = record {
    free = free;
    chain =
        Chain-congr s.pool.links links _ free
          (All-intro _ free
            (λ o m. same o (free-IsOutside blocks free s.held s.pool shared sized o m)))
          chain;
    shared = shared;
    sized = sized;
  }

module _ {all : List ℕ} {size : ℕ} (blocks : IsBlocks all size) where
  -- Every call, and every write by the holder of a block to that block, keeps each block once in
  -- the free list or once in a message.
  pub Step-IsSound : {s t : State} → Step s t → IsSound all size s → IsSound all size t
  Step-IsSound (take m e) v = take-IsSound blocks v m e
  Step-IsSound (refuse m e) v = refuse-IsSound blocks v m e
  Step-IsSound (give m was e) v = give-IsSound blocks v m was e
  Step-IsSound (write links same) v = write-IsSound blocks v links same

  pub Reach-IsSound : {s t : State} → Reach s t → IsSound all size s → IsSound all size t
  Reach-IsSound here v = v
  Reach-IsSound (next r st) v = Step-IsSound st (Reach-IsSound r v)

  -- In whatever order messages allocate, release and write their blocks, no two blocks that are held
  -- have a byte in common.
  pub held-Apart : {s t : State} → Reach s t → IsSound all size s → Pairwise (Apart size) t.held
  held-Apart {t = t} r v =
      let w = Reach-IsSound r v in
      ((Pairwise-append (λ a b. ¬_prop) {l₁ = w.free} {l₂ = t.held}).0
        (perm-Apart blocks (w.free ++ t.held) w.shared)).1

  -- `tryAllocate` fails exactly when every block is held.
  pub try_allocate_fails :
      {s : State} (m : Message)
      → IsSound all size s
      → (try_allocate s.pool m).0 ≡ (if length s.held == length all then false else true)
  unfolding try_allocate
  try_allocate_fails {s} m v = go v.free v.chain v.shared
    where
      go :
          (free : List ℕ)
          → Chain s.pool.links s.pool.root_offset free
          → Perm (free ++ s.held) all
          → (try_allocate s.pool m).0 ≡ (if length s.held == length all then false else true)
      go [] c p = ground (arith, perm-length p)
      go (o ∷ os) c p = ground (arith, perm-length p, length-append os s.held)
