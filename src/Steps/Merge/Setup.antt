-- ===== src/Steps/Merge/Setup.antt =====
-- How a step of src/StepLibrary/OrderedMerge.cpp starts: its constructor, its parameters, what it asks
-- for, and the messages that it takes from the pool.
use mathlib.Core.List.{append-nil}
use hsqueue.Base.{
  ℕ, ◌+◌, ◌%◌, dec_lt, ◌<◌, ◌≡◌, refl, sym, subst, Bool, true, false, List, [], ◌∷◌, ◌++◌, map,
  arith, Option, none, some, length, Result, ok, err, ◌>>=◌, no_resources, allocation_failed,
}
use hsqueue.Message.{Message, blank, is_empty}
use hsqueue.Memory.BlockPool.{BlockPool}
use hsqueue.Memory.BlockPool.FreeList.{Chain}
use hsqueue.Steps.Copying
use hsqueue.Steps.Copying.{StepToMessage, make_step_to_message}
use hsqueue.Steps.Resources.{Resources, request_messages, request_message_size}
use hsqueue.Queue.Setup.{allocate_none}
use hsqueue.Steps.Pending.{
  fill_pending, at_block, length-at_block, used-at_block, allocate-first, fill_pending-Chain,
  fill_pending_short,
}
use hsqueue.Steps.Merge.{Merge, Stats, slot, validate}
use hsqueue.Steps.Merge.Place.{IsPlaced}

abbrev no_stats : Stats
no_stats = record {
  received = 0;
  heartbeats = 0;
  shutdowns = 0;
  datas = 0;
  heartbeat_without_publish = 0;
  shutdown_published_gap = 0;
  arrived_in_order = 0;
  previous = 0;
  stashed = 0;
  duplicates_stash = 0;
  future = 0;
}

abbrev pub make_merge : Merge
make_merge = record {
  look_ahead = 0;
  max_delay_heartbeats = 1;
  heartbeat_delays = 0;
  expected = 0;
  highest_stashed = 0;
  pending = [];
  last_heartbeat_sequence = 0;
  last_heartbeat_highest = 0;
  out_message = blank;
  gap_start = 0;
  gap_end = 0;
  stats = no_stats;
  sent = [];
}

-- The keys of `configureParameter`, and any other.
pub data Key : Type 0 where
  look_ahead_key delay_heartbeats_key other_key : Key

-- The value is what the node gives; `base` is the answer of `StepToMessage::configureParameter`.
unfoldable pub configure_parameter : Key → Option ℕ → Bool → Merge → Bool × Merge
configure_parameter look_ahead_key (some n) base s = (true, record s { look_ahead = n })
configure_parameter delay_heartbeats_key (some n) base s =
    (true, record s { max_delay_heartbeats = n })
configure_parameter other_key value base s = (base, s)
configure_parameter key none base s = (false, s)

unfoldable pub configure_resources : ℕ → Merge → Resources → Resources
configure_resources sizeof_gap s r =
    Copying.configure_resources (request_messages s.look_ahead (request_message_size sizeof_gap r))

-- The output message is a member of the base class.
abbrev pub with_out_message : StepToMessage → Merge → Merge
with_out_message t s = elim t.out_message [ none ↦ s | some m ↦ record s { out_message = m } ]

unfoldable pub attach_resources :
    Option BlockPool → StepToMessage → Merge → Result (Option BlockPool × StepToMessage × Merge)
attach_resources none t s = err no_resources
attach_resources (some pool) t s = fill_pending s.look_ahead pool s.pending >>= λ r.
    Copying.attach_resources (some r.0) t >>= λ a.
    ok (a.0, a.1, with_out_message a.1 (record s { pending = r.1 }))

abbrev pub is_some : Option Message → Bool
is_some none = false
is_some (some m) = true

-- A step with its messages, and with nothing in them yet.
pub record IsIdle (s : Merge) : Type 0 where
  pub placed : IsPlaced s
  pub nothing : (q : ℕ) → is_empty (slot s q) ≡ true
  pub unset : s.expected ≡ 0

-- What a merge with `n` pending messages has once it is attached, the free blocks being `os`, then
-- `o`, then the rest.
pub record Attached (pool : BlockPool) (os : List ℕ) (o : ℕ) (rest : List ℕ) (t : StepToMessage)
    (s : Merge) (root : ℕ) : Type 0 where
  pub kept : s.pending ≡ map (at_block pool.base pool.block_size) os
  pub out : t.out_message ≡ some (at_block pool.base pool.block_size o)
  pub same_out : s.out_message ≡ at_block pool.base pool.block_size o
  pub free : Chain pool.links root rest
  pub valid : validate true (is_some t.out_message) s ≡ ok tt

-- A merge that is told to look ahead by as many messages as `os` has blocks takes the blocks of `os`
-- from the pool for them, in the order of the free list, and the next one for its output message; the
-- rest of the list stays free, `validate` passes if there is a destination, and if it looks ahead at
-- all it is idle, with nothing in its messages.
pub attach_resources-Attached :
    (base : Bool) (pool : BlockPool) (os : List ℕ) (o : ℕ) (rest : List ℕ)
    → Chain pool.links pool.root_offset (os ++ o ∷ rest)
    → (root : ℕ) × (t : StepToMessage) × (s : Merge) × (attach_resources
          (some pool)
          make_step_to_message
          (configure_parameter look_ahead_key (some (length os)) base make_merge).1
        ≡ ok (some (record pool { root_offset = root }), t, s))
      × Attached pool os o rest t s root
      × (0 < length os → IsIdle s)
unfolding attach_resources configure_parameter Copying.attach_resources validate is_empty
attach_resources-Attached base pool os o rest c =
    let (middle, filled, c') = fill_pending-Chain pool os (o ∷ rest) c in
    let (root, given, c'') = allocate-first (record pool { root_offset = middle }) o rest c' in
    (
      root,
      record make_step_to_message { out_message = some out },
      attached,
      rw (filled, given),
      record {
        kept = refl;
        out = refl;
        same_out = refl;
        free = c'';
        valid = ground (arith, sized);
      },
      λ some. record {
        placed = record {
          window = some;
          sized = sized;
          placed = λ q full. absurd (ground (arith, nothing q, full));
        };
        nothing = λ q. ground (arith, nothing q);
        unset = refl;
      },
    )
  where
    out : Message
    out = at_block pool.base pool.block_size o

    attached : Merge
    attached = record make_merge {
      look_ahead = length os;
      pending = map (at_block pool.base pool.block_size) os;
      out_message = out;
    }

    sized : length attached.pending ≡ length os
    sized = length-at_block pool.base pool.block_size os

    nothing : (q : ℕ) → (slot attached q).used ≡ 0
    nothing q = used-at_block pool.base pool.block_size os (q % length os)

-- With fewer free blocks than messages to keep and one for the output, a merge does not start.
pub attach_resources_short :
    (base : Bool) (pool : BlockPool) (os : List ℕ) (look_ahead : ℕ)
    → Chain pool.links pool.root_offset os
    → length os < look_ahead + 1
    → attach_resources
        (some pool)
        make_step_to_message
        (configure_parameter look_ahead_key (some look_ahead) base make_merge).1
      ≡ err allocation_failed
unfolding attach_resources configure_parameter Copying.attach_resources
attach_resources_short base pool os look_ahead c few = elim (dec_lt (length os) look_ahead) [
  | yes fewer ↦ rw (fill_pending_short pool os look_ahead c fewer)
  | no full ↦
      let same : look_ahead ≡ length os = omega (arith, few, full) in
      let (middle, filled, c') =
        fill_pending-Chain pool os []
          (subst (Chain pool.links pool.root_offset) (sym (append-nil os)) c) in
      rw (same, filled, allocate_none (record pool { root_offset = middle }) c')
]
