-- ===== src/Steps/Pending.antt =====
-- The loop by which src/StepLibrary/OrderedMerge.cpp and Shuffler.cpp give themselves messages to
-- keep others in, from the pool of a pipeline.
use hsqueue.Base.{
  ℕ, zero, suc, ◌-◌, ◌<◌, ◌≡◌, refl, ap, ◌∙◌, sym, List, [], ◌∷◌, ◌++◌, map, arith, get_or, length,
  ◌==◌, if◌then◌else◌, Result, ok, err, ◌>>=◌, allocation_failed,
}
use mathlib.Core.List.{append_assoc, append-nil}
use hsqueue.Message.{Message, blank, attach}
use hsqueue.Memory.BlockPool.{BlockPool, allocate}
use hsqueue.Memory.BlockPool.FreeList.{Chain}
use hsqueue.Queue.Setup.{allocate-Chain, allocate_none}

-- So many messages are put behind those that are there; the first that gets no block ends it.
abbrev pub add_messages : ℕ → BlockPool → List Message → Result (BlockPool × List Message)
add_messages zero pool pending = ok (pool, pending)
add_messages (suc rounds) pool pending =
    allocate pool blank >>= λ r. add_messages rounds r.0 (pending ++ r.1 ∷ [])

-- A round for each message that is missing.
unfoldable pub fill_pending : ℕ → BlockPool → List Message → Result (BlockPool × List Message)
fill_pending look_ahead pool pending = add_messages (look_ahead - length pending) pool pending

-- A new message at a block of a pool at `base`.
abbrev pub at_block : ℕ → ℕ → ℕ → Message
at_block base size offset = record blank { container = base; capacity = size; offset = offset }

pub length-at_block :
    (base size : ℕ) (os : List ℕ) → length (map (at_block base size) os) ≡ length os
length-at_block base size [] = refl
length-at_block base size (o ∷ os) = ap suc (length-at_block base size os)

-- Whatever slot is looked at, nothing is in it.
pub used-at_block :
    (base size : ℕ) (os : List ℕ) (i : ℕ) → (get_or (map (at_block base size) os) i blank).used ≡ 0
used-at_block base size [] i = refl
used-at_block base size (o ∷ os) zero = refl
used-at_block base size (o ∷ os) (suc i) = used-at_block base size os i

-- The first free block goes to the message.
pub allocate-first :
    (pool : BlockPool) (o : ℕ) (os : List ℕ)
    → Chain pool.links pool.root_offset (o ∷ os)
    → (root : ℕ) × (allocate pool blank
        ≡ ok (record pool { root_offset = root }, at_block pool.base pool.block_size o))
      × Chain pool.links root os
unfolding attach
allocate-first pool o os c =
    let (given, c') = allocate-Chain pool blank o os c in
    let room : (if pool.block_size == 0 then 0 else pool.block_size) ≡ pool.block_size =
      ground arith in
    (pool.links pool.root_offset, rw (given, room), c')

-- The messages get the first free blocks, in their order, and the rest stays free.
pub add_messages-Chain :
    (pool : BlockPool) (pending : List Message) (os rest : List ℕ)
    → Chain pool.links pool.root_offset (os ++ rest)
    → (root : ℕ) × (add_messages (length os) pool pending
        ≡ ok (
          record pool { root_offset = root },
          pending ++ map (at_block pool.base pool.block_size) os,
        ))
      × Chain pool.links root rest
add_messages-Chain pool pending [] rest c =
    (pool.root_offset, ap (λ l. ok (pool, l)) (sym (append-nil pending)), c)
add_messages-Chain pool pending (o ∷ os) rest c =
    let (root, given, c') = allocate-first pool o (os ++ rest) c in
    let block = at_block pool.base pool.block_size in
    let (root', on, c'') =
      add_messages-Chain (record pool { root_offset = root }) (pending ++ block o ∷ []) os rest
        c' in
    let behind = append_assoc pending (block o ∷ []) (map block os) in
    (root', rw given (on ∙ ap (λ l. ok (record pool { root_offset = root' }, l)) behind), c'')

-- With too few free blocks there is no message left to give.
pub add_messages_short :
    (rounds : ℕ) (pool : BlockPool) (pending : List Message) (os : List ℕ)
    → Chain pool.links pool.root_offset os
    → length os < rounds
    → add_messages rounds pool pending ≡ err allocation_failed
add_messages_short zero pool pending os c few = absurd (omega (arith, few))
add_messages_short (suc rounds) pool pending [] c few = rw (allocate_none pool c)
add_messages_short (suc rounds) pool pending (o ∷ os) c few =
    let (root, given, c') = allocate-first pool o os c in
    let more = pending ++ at_block pool.base pool.block_size o ∷ [] in
    let on =
      add_messages_short rounds (record pool { root_offset = root }) more os c'
        (omega (arith, few)) in
    rw (given, on)

-- A step with no messages yet gets as many as it is to have.
all_missing : (n : ℕ) (pool : BlockPool) → fill_pending n pool [] ≡ add_messages n pool []
unfolding fill_pending
all_missing n pool = ap (λ rounds. add_messages rounds pool []) {x = n - 0} {y = n} (omega arith)

module _ (pool : BlockPool) (os : List ℕ) where
  pub fill_pending-Chain :
      (rest : List ℕ)
      → Chain pool.links pool.root_offset (os ++ rest)
      → (root : ℕ) × (fill_pending (length os) pool []
          ≡ ok (record pool { root_offset = root }, map (at_block pool.base pool.block_size) os))
        × Chain pool.links root rest
  fill_pending-Chain rest c =
      let (root, added, c') = add_messages-Chain pool [] os rest c in
      (root, all_missing (length os) pool ∙ added, c')

  pub fill_pending_short :
      (look_ahead : ℕ)
      → Chain pool.links pool.root_offset os
      → length os < look_ahead
      → fill_pending look_ahead pool [] ≡ err allocation_failed
  fill_pending_short look_ahead c few =
      all_missing look_ahead pool ∙ add_messages_short look_ahead pool [] os c few
