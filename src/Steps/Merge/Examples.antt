-- ===== src/Steps/Merge/Examples.antt =====
-- A merge that starts from a small pool, and one that gets three messages.
use mathlib.Core.List.{Mem}
use hsqueue.Steps.Merge.Account.{IsAccounted}
use hsqueue.Base.{
  All, ◌⊎◌, ℕ, zero, suc, ◌+◌, ◌<◌, ◌%◌, ◌≡◌, refl, true, List, [], ◌∷◌, ◌++◌, arith, some, get_or,
  tabulate, length,
}
use hsqueue.Message.{Message, blank, is_empty, move_to, set_empty, copy_meta_info_to}
use hsqueue.Memory.BlockPool.{MemoryPool, cache_aligned_message_size}
use hsqueue.Steps.Copying.{StepToMessage, make_step_to_message}
use hsqueue.Steps.Copying
use hsqueue.Steps.Resources.{
  Resources, make_resources, request_messages, request_message_size, create_resources,
  attach_and_validate, calm,
}
use hsqueue.Steps.Merge.Start.{looking_ahead, Begun, create_resources-Begun}
use hsqueue.Steps.Send.{Destination, returns, send}
use hsqueue.Steps.Merge.{Merge, slot, handle_data_message, publish_pending_messages}
use hsqueue.Steps.Merge.Place.{sequences}
use hsqueue.Steps.Merge.Order.{IsSettled}
use hsqueue.Steps.Merge.Run.{after, handle_all, done, next, handle_all-InOrder}
use hsqueue.Steps.Merge.Setup.{make_merge, IsIdle, configure_parameter, configure_resources}

abbrev silent : Destination
silent sent m = m

abbrev numbered : ℕ → Message
numbered n = record blank { used = 8; sequence = n }

abbrev two_slots : Merge
two_slots = record make_merge { look_ahead = 2; pending = blank ∷ blank ∷ [] }

no_message : (i : ℕ) → is_empty (get_or (blank ∷ blank ∷ []) i blank) ≡ true
unfolding is_empty
no_message zero = refl
no_message (suc zero) = refl
no_message (suc (suc i)) = refl

two_slots-IsIdle : IsIdle two_slots
two_slots-IsIdle = record {
  placed = record {
    window = omega arith;
    sized = refl;
    placed = λ q full. absurd (cc (no_message (q % 2), full));
  };
  nothing = λ q. no_message (q % 2);
  unset = refl;
}

abbrev with_five : Merge
with_five = after silent 8 1 two_slots (numbered 5)

abbrev with_seven : Merge
with_seven = after silent 8 1 with_five (numbered 7)

-- After 5 comes 7, which waits for 6.
six_expected : (with_five.expected ≡ 6) × (with_seven.expected ≡ 6)
unfolding handle_data_message publish_pending_messages is_empty move_to send set_empty
    copy_meta_info_to
six_expected = (refl, refl)

same_window : (with_five.look_ahead ≡ 2) × (with_seven.look_ahead ≡ 2)
unfolding handle_data_message publish_pending_messages is_empty move_to send set_empty
    copy_meta_info_to
same_window = (refl, refl)

handle_all-InOrder_example :
    let s' = after silent 8 1 with_seven (numbered 6) in
    (out : List Message) × (handle_all silent 8 1 two_slots
        (numbered 5 ∷ numbered 7 ∷ numbered 6 ∷ [])
      ≡ returns s')
    × (s'.sent ≡ [] ++ out)
    × (sequences out ≡ tabulate (λ i. i) 5 (length out))
    × (0 < length out)
    × (s'.expected ≡ 5 + length out)
    × IsSettled silent s'
    × All (λ x. Mem x (numbered 5 ∷ numbered 7 ∷ numbered 6 ∷ [])) out
    × ((q : ℕ)
        → (is_empty (slot s' q) ≡ true)
          ⊎ Mem (slot s' q) (numbered 5 ∷ numbered 7 ∷ numbered 6 ∷ []))
    × All (IsAccounted s') (numbered 5 ∷ numbered 7 ∷ numbered 6 ∷ [])
handle_all-InOrder_example =
    handle_all-InOrder silent 8 1 two_slots _ (numbered 5) (numbered 7 ∷ numbered 6 ∷ [])
      two_slots-IsIdle (omega arith) (omega arith)
      (next (omega (arith, six_expected, same_window)) (omega (arith, six_expected, same_window)) (
        next (omega (arith, six_expected, same_window)) (omega (arith, six_expected, same_window))
          done))

abbrev asked : Resources
asked = configure_resources 8 (looking_ahead 2) make_resources

create_resources-Begun_example :
    (mp : MemoryPool) × (t : StepToMessage) × (s : Merge) × (create_resources 100 4096
        (λ o. 0)
        calm
        asked
      ≡ some (attach_and_validate calm mp asked))
    × Begun 8 mp.pool 2 t s
unfolding configure_resources request_messages request_message_size configure_parameter
    Copying.configure_resources
create_resources-Begun_example =
    create_resources-Begun 8 100 4096 (λ o. 0) calm 2 make_resources (omega arith)
      (record {
        some_size = omega arith;
        some_messages = omega arith;
        short = omega arith;
        near = omega arith;
        fits = unfold cache_aligned_message_size in omega arith;
      })
