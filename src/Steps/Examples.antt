-- ===== src/Steps/Examples.antt =====
-- The theorems about the steps of a pipeline at small pipelines.
use mathlib.Core.List.{Perm}
use hsqueue.Base.{
  not, ◌==◌, ℕ, zero, suc, ◌+◌, ◌≤◌, ◌∷◌, ◌++◌, ◌≡◌, ◌⊎◌, inl, refl, List, [], true, false, some,
  none, All, arith, ok, err, configuration_error, set, ◌%◌, get_or,
}
use hsqueue.Message.{Message, blank, heartbeat, is_empty, move_to}
use hsqueue.Memory.BlockPool.{MemoryPool, cache_aligned_message_size}
use hsqueue.Steps.Send.{Destination, returns, loops}
use hsqueue.Steps.Merge
use hsqueue.Steps.Merge.{Merge, slot, handle_shutdown, catch_up}
use hsqueue.Steps.Merge.Stash.{waiting}
use hsqueue.Steps.Merge.Drain.{handle_shutdown-Drained}
use hsqueue.Steps.Merge.Order.{IsSettled, Handled, handle_data_message-Handled}
use hsqueue.Steps.Merge.Stall.{catch_up-loops, handle_data_message_beyond}
use hsqueue.Steps.Shuffler
use hsqueue.Steps.Shuffler.{Shuffler, handle_data_message_keeps, handle_flushes}
use hsqueue.Steps.Stopper
use hsqueue.Steps.Stopper.{Stopper, IsOnce, handle_all-IsOnce}
use hsqueue.Steps.Leaker
use hsqueue.Steps.Leaker.{Leaker, handle_all, let_through, taking_part, handle_all_lem}
use hsqueue.Steps.Step.{
  Step, find_named, target_at, destination_index, no_index, must_have_named_destination,
  destination_index_lem, make_step,
}
use hsqueue.Steps.Resources.{
  Request, messages, message_size, make_resources, request_all, create_resources, total, IsEnough,
  Resources, StepCalls, request_messages, request_message_size, attach_and_validate, calm,
}
use hsqueue.Steps.Resources.Creation.{create_resources_lem}
use hsqueue.Steps.Resources.Ending.{IsEnding}
use hsqueue.Steps.Resources.Calls.{Called, setting_up}

-- A destination that leaves every message as it is.
abbrev looking : Destination
looking sent m = m

abbrev numbered : ℕ → Message
numbered n = record blank { used = 8; sequence = n }

abbrev merge : List Message → Merge
merge pending = record {
  look_ahead = 2;
  max_delay_heartbeats = 1;
  heartbeat_delays = 0;
  expected = 5;
  highest_stashed = 6;
  pending = pending;
  last_heartbeat_sequence = 5;
  last_heartbeat_highest = 9;
  out_message = record blank { capacity = 64 };
  gap_start = 0;
  gap_end = 0;
  stats = record {
    received = 0;
    heartbeats = 0;
    shutdowns = 0;
    datas = 0;
    heartbeat_without_publish = 0;
    shutdown_published_gap = 0;
    arrived_in_order = 0;
    previous = 0;
    stashed = 0;
    duplicates_stash = 0;
    future = 0;
  };
  sent = [];
}

-- 5 is expected, 6 is kept.
abbrev waiting_for_five : Merge
waiting_for_five = merge (numbered 6 ∷ blank ∷ [])

drained_example :
    (s' : Merge) × (m' : Message) × (out : List Message) × (handle_shutdown looking 8
        waiting_for_five
        (numbered 7)
      ≡ returns (s', m'))
    × (s'.sent ≡ ([] ++ out) ++ numbered 7 ∷ [])
    × Perm (waiting (numbered 6 ∷ blank ∷ [])) out
    × (waiting s'.pending ≡ [])
    × (is_empty m' ≡ true)
unfolding is_empty
drained_example =
    handle_shutdown-Drained looking 8 waiting_for_five (numbered 7)
      (record { window = omega arith; sized = refl; room = omega arith; near = omega arith })

blank_slots : (i : ℕ) → is_empty (get_or (blank ∷ blank ∷ []) i blank) ≡ true
unfolding is_empty
blank_slots zero = refl
blank_slots (suc zero) = refl
blank_slots (suc (suc i)) = refl

idle_merge-IsSettled : IsSettled looking (merge (blank ∷ blank ∷ []))
unfolding is_empty
idle_merge-IsSettled = record {
  placed = record {
    window = omega arith;
    sized = refl;
    placed = λ q some'. absurd (cc (blank_slots (q % 2), some'));
  };
  exhausted = refl;
}

handle_data_message-Handled_example :
    Handled looking 8
      (merge (blank ∷ blank ∷ []))
      (numbered 6)
      (Merge.handle_data_message looking 8 3 (merge (blank ∷ blank ∷ [])) (numbered 6))
handle_data_message-Handled_example =
    handle_data_message-Handled looking 8 3 (merge (blank ∷ blank ∷ [])) (numbered 6)
      idle_merge-IsSettled (omega arith) (omega arith) (omega arith)

loops_example : catch_up looking 8 100 (merge (blank ∷ blank ∷ [])) ≡ loops
loops_example =
    catch_up-loops looking 8 100 (merge (blank ∷ blank ∷ [])) (omega arith) (omega arith)
      (omega arith) refl (λ q. blank_slots (q % 2)) (omega arith)

beyond_example :
    (s' : Merge) × (m' : Message) × (Merge.handle_data_message looking 8 3 waiting_for_five
        (numbered 10)
      ≡ returns (s', m'))
    × (s'.sent ≡ [])
    × (s'.expected ≡ 5)
    × (s'.pending
        ≡ set
            (numbered 6 ∷ blank ∷ [])
            (10 % 2)
            (move_to (numbered 10) (slot waiting_for_five 10)).1)
beyond_example =
    handle_data_message_beyond looking 8 2 waiting_for_five (numbered 10) (omega arith)
      (omega arith) (omega arith) (omega arith)

abbrev shuffler : Shuffler
shuffler = record Shuffler.make_shuffler { look_ahead = 2; pending = numbered 1 ∷ numbered 2 ∷ [] }

keeps_example :
    let s' = (Shuffler.handle_data_message looking shuffler (numbered 3)).0 in
    Perm (s'.sent ++ waiting s'.pending) (numbered 3 ∷ [] ++ waiting (numbered 1 ∷ numbered 2 ∷ []))
unfolding is_empty
keeps_example = handle_data_message_keeps looking shuffler (numbered 3) (omega arith) refl refl

flushes_example :
    let s' = (Shuffler.handle looking shuffler (record blank { kind = heartbeat })).0 in
    (s'.sent
      ≡ ([] ++ waiting (numbered 1 ∷ numbered 2 ∷ [])) ++ record blank { kind = heartbeat } ∷ [])
    × (waiting s'.pending ≡ [])
flushes_example = handle_flushes looking shuffler (record blank { kind = heartbeat }) (inl refl)

abbrev leaker : Leaker
leaker = record Leaker.make_leaker { count = 1; every = 3 }

abbrev three : List Message
three = numbered 1 ∷ record blank { kind = heartbeat } ∷ numbered 2 ∷ []

leaker_example :
    (handle_all looking leaker three).sent
    ≡ [] ++ let_through 1 3 ((0 + 0 + 1) % 3) (taking_part false false three)
leaker_example = handle_all_lem looking leaker three (omega arith) (omega arith)

abbrev fan : Step
fan = record make_step {
  destinations =
      record { name = 97 ∷ []; target = 11 } ∷ record { name = 98 ∷ []; target = 12 } ∷ [];
}

destination_example :
    ((find_named (98 ∷ []) fan.destinations ≡ none)
      × (destination_index (98 ∷ []) fan ≡ no_index)
      × (must_have_named_destination (98 ∷ []) fan ≡ err configuration_error))
    ⊎ ((t : ℕ) × (find_named (98 ∷ []) fan.destinations ≡ some t)
        × (target_at fan.destinations (destination_index (98 ∷ []) fan) ≡ some t)
        × (must_have_named_destination (98 ∷ []) fan ≡ ok tt))
destination_example = destination_index_lem (98 ∷ []) fan (omega arith)

abbrev requests : List Request
requests = messages 3 ∷ message_size 50 ∷ messages 2 ∷ []

abbrev with_steps : Resources
with_steps = record make_resources { steps = 0 ∷ 1 ∷ 2 ∷ [] }

-- The step 1 is not valid.
abbrev picky : StepCalls
picky = record { attach = calm.attach; valid = λ step. not (step == 1) }

resources_example :
    let r = request_all requests with_steps in
    (mp : MemoryPool) × (create_resources 100 4096 (λ o. 0) picky r
      ≡ some (attach_and_validate picky mp r))
    × (0 + total requests ≤ mp.pool.block_count)
    × All (IsEnough mp.pool.block_size) requests
    × Called (setting_up r.steps) r (attach_and_validate picky mp r)
    × IsEnding picky r.steps mp r (attach_and_validate picky mp r)
unfolding request_messages request_message_size
resources_example =
    create_resources_lem 100 4096 (λ o. 0) picky requests with_steps (omega arith) (omega arith)
      (omega arith) (omega arith) (omega arith) (unfold cache_aligned_message_size in omega arith)

abbrev stopper : Stopper
stopper = record Stopper.make_stopper { messages_expected = 1; has_resources = true }

handle_all-IsOnce_example :
    IsOnce (Stopper.handle_all looking stopper three)
    × ((Stopper.handle_all looking stopper three).sent ≡ [] ++ three)
handle_all-IsOnce_example =
    handle_all-IsOnce looking stopper three (record { once = refl; stopped = refl })
