-- ===== src/Steps/Merge/Start.antt =====
-- How a step of src/StepLibrary/OrderedMerge.cpp comes by its messages: the pool that
-- src/Steps/SharedResources.cpp makes from what the steps ask for has enough for it.
use hsqueue.Base.{
  ℕ, zero, suc, ◌+◌, ◌<◌, ◌≤◌, ◌≡◌, refl, sym, ap, ◌∙◌, subst, true, List, [], ◌∷◌, ◌++◌, arith,
  some, length, ok, w64,
}
use hsqueue.Memory.BlockPool.{BlockPool, MemoryPool}
use hsqueue.Memory.BlockPool.FreeList.{Chain}
use hsqueue.Steps.Copying
use hsqueue.Steps.Copying.{StepToMessage, make_step_to_message}
use hsqueue.Steps.Resources.{
  Resources, request_messages, request_message_size, StepCalls, create_resources,
  attach_and_validate,
}
use hsqueue.Steps.Resources.Creation.{IsFeasible, create_resources-Supplies}
use hsqueue.Steps.Pending.{length-at_block}
use hsqueue.Steps.Merge.{Merge, validate}
use hsqueue.Steps.Merge.Setup.{
  make_merge, configure_parameter, look_ahead_key, configure_resources, attach_resources, is_some,
  IsIdle, attach_resources-Attached,
}

-- A list longer than `n` has `n` elements before the next one.
split_at :
    (n : ℕ) (l : List ℕ)
    → n < length l
    → (front : List ℕ) × (x : ℕ) × (rest : List ℕ) × (l ≡ front ++ x ∷ rest) × (length front ≡ n)
split_at n [] more = absurd (omega (arith, more))
split_at zero (x ∷ l) more = ([], x, l, refl, refl)
split_at (suc n) (x ∷ l) more =
    let (front, y, rest, e, sized) = split_at n l (omega (arith, more)) in
    (x ∷ front, y, rest, ap (λ t. x ∷ t) e, ap suc sized)

-- The merge that is told to look ahead by so many messages.
abbrev pub looking_ahead : ℕ → Merge
looking_ahead n = (configure_parameter look_ahead_key (some n) true make_merge).1

configure_resources-needed :
    (sizeof_gap n : ℕ) (r : Resources)
    → r.messages_needed + n + 1 < w64
    → (configure_resources sizeof_gap (looking_ahead n) r).messages_needed
      ≡ r.messages_needed + n + 1
unfolding configure_resources Copying.configure_resources request_messages request_message_size
    configure_parameter
configure_resources-needed sizeof_gap n r small = ground (arith, small)

configure_resources-size :
    (sizeof_gap n : ℕ) (r : Resources)
    → sizeof_gap ≤ (configure_resources sizeof_gap (looking_ahead n) r).largest_message_size
unfolding configure_resources Copying.configure_resources request_messages request_message_size
configure_resources-size sizeof_gap n r = ground arith

-- What a merge has to begin with.
pub record Begun (sizeof_gap : ℕ) (pool : BlockPool) (n : ℕ) (t : StepToMessage) (s : Merge)
    : Type 0 where
  pub root : ℕ
  pub attached :
      attach_resources (some pool) make_step_to_message (looking_ahead n)
      ≡ ok (some (record pool { root_offset = root }), t, s)
  pub valid : validate true (is_some t.out_message) s ≡ ok tt
  pub count : length s.pending ≡ n
  pub room : sizeof_gap ≤ s.out_message.capacity
  pub idle : 0 < n → IsIdle s

-- Whatever the other steps of a pipeline ask for, once a merge has asked for its messages the pool that
-- `createResources` makes lets a merge that attaches first begin: `attachResources` returns,
-- `validate` passes if there is a destination, the output message has room for a gap message, and if
-- the merge looks ahead at all it is idle, with nothing in its messages and no number expected; if no
-- sum wraps.
pub create_resources-Begun :
    (sizeof_gap sizeof_pool base : ℕ) (links : ℕ → ℕ) (calls : StepCalls) (n : ℕ) (r0 : Resources)
    → let r = configure_resources sizeof_gap (looking_ahead n) r0 in
      r0.messages_needed + n + 1 < w64
      → IsFeasible sizeof_pool base r
      → (mp : MemoryPool) × (t : StepToMessage) × (s : Merge) × (create_resources sizeof_pool base
            links calls r
          ≡ some (attach_and_validate calls mp r))
        × Begun sizeof_gap mp.pool n t s
create_resources-Begun sizeof_gap sizeof_pool base links calls n r0 small k =
    let r = configure_resources sizeof_gap (looking_ahead n) r0 in
    let (mp, made, supplies) = create_resources-Supplies sizeof_pool base links calls r k in
    let needed = configure_resources-needed sizeof_gap n r0 small in
    let (front, o, rest, e, sized) =
      split_at n supplies.offsets (omega (arith, supplies.enough, supplies.counted, needed)) in
    let (root, t, s, done, a, idle) =
      attach_resources-Attached true mp.pool front o rest
        (subst (Chain mp.pool.links mp.pool.root_offset) e supplies.chain) in
    let long_enough = configure_resources-size sizeof_gap n r0 in
    (
      mp,
      t,
      s,
      made,
      record {
        root = root;
        attached =
            subst
              (λ l.
                attach_resources (some mp.pool) make_step_to_message (looking_ahead l)
                ≡ ok (some (record (mp.pool) { root_offset = root }), t, s))
              sized done;
        valid = a.valid;
        count = ap length a.kept ∙ length-at_block mp.pool.base mp.pool.block_size front ∙ sized;
        room =
            subst (λ m. sizeof_gap ≤ m.capacity) (sym a.same_out)
              (omega (arith, supplies.long_enough, long_enough));
        idle = λ some. idle (omega (arith, some, sized));
      },
    )
