-- ===== src/Steps/Resources/Creation.antt =====
-- The pool that `SharedResources::createResources` of src/Steps/SharedResources.cpp makes from what the
-- steps asked for.
use hsqueue.Base.{
  ℕ, ◌+◌, ◌*◌, ◌<◌, ◌≤◌, ◌≡◌, sym, ◌∙◌, subst, List, [], ◌∷◌, arith, ltb, ◌==◌, add64, w64, some,
  Bool-cases, inl, inr, if_of_true, if_of_false, All,
}
use hsqueue.Memory.BlockPool.{MemoryPool, cache_aligned_message_size}
use hsqueue.Memory.BlockPool.Capacity.{Supplies, make_memory_pool_lem}
use hsqueue.Steps.Resources.{
  Resources, StepCalls, create_resources, attach_and_validate, Request, messages, message_size,
  asio_threads, request_all, request_messages, request_message_size, request_asio_thread, total,
  IsEnough,
}
use hsqueue.Steps.Resources.Calls.{Called, setting_up, attach_and_validate-Called}
use hsqueue.Steps.Resources.Ending.{IsEnding, attach_and_validate-IsEnding}

record Summed (qs : List Request) (r r' : Resources) : Type 0 where
  needed : r'.messages_needed ≡ r.messages_needed + total qs
  grown : r.largest_message_size ≤ r'.largest_message_size
  enough : All (IsEnough r'.largest_message_size) qs

request_all-Summed :
    (qs : List Request) (r : Resources)
    → r.messages_needed + total qs < w64
    → Summed qs r (request_all qs r)
unfolding request_messages request_message_size request_asio_thread
request_all-Summed [] r small = record { needed = omega arith; grown = omega arith; enough = tt }
request_all-Summed (messages count ∷ qs) r small =
    let next : add64 r.messages_needed count ≡ r.messages_needed + count = omega (arith, small) in
    let s =
      request_all-Summed qs (record r { messages_needed = add64 r.messages_needed count })
        (omega (arith, small, next)) in
    record { needed = omega (arith, s.needed, next); grown = s.grown; enough = (tt, s.enough) }
request_all-Summed (asio_threads threads tenths ∷ qs) r small =
    let s = request_all-Summed qs (request_asio_thread threads tenths r) small in
    record { needed = s.needed; grown = s.grown; enough = (tt, s.enough) }
request_all-Summed (message_size bytes ∷ qs) r small =
    elim (Bool-cases (ltb r.largest_message_size bytes)) [
      | inl more ↦
          let s = request_all-Summed qs (record r { largest_message_size = bytes }) small in
          subst (λ u. Summed (message_size bytes ∷ qs) r (request_all qs u))
            (sym (if_of_true _ _ more))
            (record {
              needed = s.needed;
              grown = ground (arith, s.grown, more);
              enough = (s.grown, s.enough);
            })
      | inr less ↦
          let s = request_all-Summed qs r small in
          subst (λ u. Summed (message_size bytes ∷ qs) r (request_all qs u))
            (sym (if_of_false _ _ less))
            (record {
              needed = s.needed;
              grown = s.grown;
              enough = (ground (arith, s.grown, less), s.enough);
            })
    ]

All-IsEnough :
    (qs : List Request) (size size' : ℕ)
    → size ≤ size'
    → All (IsEnough size) qs
    → All (IsEnough size') qs
All-IsEnough [] size size' le h = tt
All-IsEnough (messages count ∷ qs) size size' le h = (tt, All-IsEnough qs size size' le h.1)
All-IsEnough (asio_threads threads tenths ∷ qs) size size' le h =
    (tt, All-IsEnough qs size size' le h.1)
All-IsEnough (message_size bytes ∷ qs) size size' le h =
    (omega (arith, h.0, le), All-IsEnough qs size size' le h.1)

-- Resources for which some messages of some size were requested, and whose pool has its addresses
-- and its size below 2^64.
pub record IsFeasible (sizeof_pool base : ℕ) (r : Resources) : Type 0 where
  pub some_size : 0 < r.largest_message_size
  pub some_messages : 0 < r.messages_needed
  pub short : r.largest_message_size + 64 < w64
  pub near : base + sizeof_pool + 64 < w64
  pub fits :
      sizeof_pool
        + (cache_aligned_message_size r.largest_message_size * r.messages_needed
            + cache_aligned_message_size r.largest_message_size)
        + 256
      < w64

pub create_resources-Supplies :
    (sizeof_pool base : ℕ) (links : ℕ → ℕ) (k : StepCalls) (r : Resources)
    → IsFeasible sizeof_pool base r
    → (mp : MemoryPool) × (create_resources sizeof_pool base links k r
        ≡ some (attach_and_validate k mp r))
      × Supplies sizeof_pool base r.largest_message_size r.messages_needed mp.allocated_size mp.pool
unfolding create_resources
create_resources-Supplies sizeof_pool base links k r f =
    let (mp, made, s) =
      make_memory_pool_lem sizeof_pool base links r.largest_message_size r.messages_needed
        f.some_size f.some_messages f.short f.near f.fits in
    (
      mp,
      if_of_false {b = r.messages_needed == 0} _ _ (ground (arith, f.some_messages))
          ∙ if_of_false {b = r.largest_message_size == 0} _ _ (ground (arith, f.some_size))
          ∙ rw made,
      s,
    )

-- Once the steps have asked for what they need, `createResources` makes one pool that has a block for
-- every message that any step asked for, each block large enough for every size asked for. It then
-- calls the steps: all attach in their order, each to the pool as those before it left it, and then
-- all validate in theirs. It returns where every step could attach and every step is valid, and none
-- is left out; otherwise it throws what the first step throws that cannot attach, or, where all can,
-- for the first that is not valid, and calls no other. Some messages must be asked for, and a size,
-- and no sum may wrap.
pub create_resources_lem :
    (sizeof_pool base : ℕ) (links : ℕ → ℕ) (k : StepCalls) (qs : List Request) (r0 : Resources)
    → let r = request_all qs r0 in
      0 < r.largest_message_size
      → 0 < r.messages_needed
      → r0.messages_needed + total qs < w64
      → r.largest_message_size + 64 < w64
      → base + sizeof_pool + 64 < w64
      → sizeof_pool
          + (cache_aligned_message_size r.largest_message_size * r.messages_needed
              + cache_aligned_message_size r.largest_message_size)
          + 256
        < w64
      → (mp : MemoryPool) × (create_resources sizeof_pool base links k r
          ≡ some (attach_and_validate k mp r))
        × (r0.messages_needed + total qs ≤ mp.pool.block_count)
        × All (IsEnough mp.pool.block_size) qs
        × Called (setting_up r.steps) r (attach_and_validate k mp r)
        × IsEnding k r.steps mp r (attach_and_validate k mp r)
create_resources_lem sizeof_pool base links k qs r0 some_size some_messages small short near fits =
    let (mp, made, s) = create_resources-Supplies sizeof_pool base links k r (record {
      some_size = some_size;
      some_messages = some_messages;
      short = short;
      near = near;
      fits = fits;
    }) in
    (
      mp,
      made,
      omega (arith, s.enough, sum.needed),
      All-IsEnough qs _ _ s.long_enough sum.enough,
      attach_and_validate-Called k mp r,
      attach_and_validate-IsEnding k mp r,
    )
  where
    r : Resources
    r = request_all qs r0

    sum : Summed qs r0 r
    sum = request_all-Summed qs r0 small
