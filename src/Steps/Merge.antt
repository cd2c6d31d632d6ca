-- ===== src/Steps/Merge.antt =====
-- src/StepLibrary/OrderedMerge.cpp: messages that come out of order are kept until those before them
-- have come. Sequence numbers have 32 bits; the size of the gap message is a parameter.
use hsqueue.Base.{
  ℕ, zero, suc, ◌+◌, ◌-◌, ◌%◌, Bool, true, false, not, ◌&&◌, List, [], ◌∷◌, ltb, leb, ◌==◌,
  if◌then◌else◌, add32, sub32, add64, get_or, set, length, Result, ok, err, configuration_error,
  no_resources,
}
use hsqueue.Message.{
  Message, MessageType, heartbeat, shutdown, gap, blank, is_empty, move_to, set_type, set_sequence,
  set_used,
}
use hsqueue.Steps.Send.{Destination, Outcome, returns, throws, loops, and_then, from_result, send}
pub mod Stash
pub mod Search
pub mod Drain
pub mod Held
pub mod Place
pub mod Taken
pub mod Account
pub mod Order
pub mod Stall
pub mod Setup
pub mod Start
pub mod Run
mod Examples

pub record Stats : Type 0 where
  pub received : ℕ
  pub heartbeats : ℕ
  pub shutdowns : ℕ
  pub datas : ℕ
  pub heartbeat_without_publish : ℕ
  pub shutdown_published_gap : ℕ
  pub arrived_in_order : ℕ
  pub previous : ℕ
  pub stashed : ℕ
  pub duplicates_stash : ℕ
  pub future : ℕ

-- `sent` is what the destination has received; `gap_start` and `gap_end` are the `GapMessage` in
-- `outMessage_`.
pub record Merge : Type 0 where
  pub look_ahead : ℕ
  pub max_delay_heartbeats : ℕ
  pub heartbeat_delays : ℕ
  pub expected : ℕ
  pub highest_stashed : ℕ
  pub pending : List Message
  pub last_heartbeat_sequence : ℕ
  pub last_heartbeat_highest : ℕ
  pub out_message : Message
  pub gap_start : ℕ
  pub gap_end : ℕ
  pub stats : Stats
  pub sent : List Message

-- The pending message that a sequence number belongs to.
abbrev pub slot : Merge → ℕ → Message
slot s sequence = get_or s.pending (sequence % s.look_ahead) blank

abbrev pub set_slot : Merge → ℕ → Message → Merge
set_slot s sequence m = record s { pending = set s.pending (sequence % s.look_ahead) m }

-- `validate`, with the checks of `StepToMessage::validate` by whether a destination and an output
-- message are there.
unfoldable pub validate : Bool → Bool → Merge → Result {0} Unit
validate has_destination has_out_message s =
    if ltb (length s.pending) s.look_ahead
    then err no_resources
    else if not has_destination
    then err configuration_error
    else if has_out_message
    then ok tt
    else err no_resources

-- `publishGapMessage`: the gap is written to the output message, which is not sent.
unfoldable pub publish_gap_message : ℕ → ℕ → ℕ → Merge → Outcome Merge
publish_gap_message sizeof_gap gap_start gap_end s =
    and_then (from_result (set_used (set_sequence (set_type s.out_message gap) gap_end) sizeof_gap))
      (λ m. returns (record s {
        out_message = m;
        gap_start = gap_start;
        gap_end = sub32 gap_end 1;
        expected = gap_end;
      }))

-- The search of `findAndPublishGap` from `position` on: the end of the gap, if there is one. The
-- positions wrap at 2^32 and the end of the window does not, so that the loop can fail to end.
abbrev pub find_gap : ℕ → ℕ → ℕ → Merge → Outcome (Bool × ℕ)
find_gap zero limit position s = if ltb position limit then loops else returns (false, position)
find_gap (suc fuel) limit position s =
    let on = find_gap fuel limit (add32 position 1) s in
    if ltb position limit
    then if is_empty (slot s position) then on else returns (true, position)
    else returns (false, position)

unfoldable pub find_and_publish_gap : ℕ → Merge → Outcome (Bool × Merge)
find_and_publish_gap sizeof_gap s =
    let search = find_gap s.look_ahead (add64 s.expected s.look_ahead) (add32 s.expected 1) s in
    if is_empty (slot s s.expected)
    then and_then search (λ r.
      if r.0
      then and_then (publish_gap_message sizeof_gap s.expected r.1 s) (λ s'. returns (true, s'))
      else returns (false, s))
    else returns (true, s)

-- A message is moved to its slot.
abbrev pub stash : Merge → Message → Merge × Message
stash s m = let (m', kept) = move_to m (slot s m.sequence) in (set_slot s m.sequence kept, m')

module _ (receive : Destination) where
  -- One round of `publishPendingMessages`.
  abbrev pub publish_next : Merge → Merge
  publish_next s =
      let (sent, m) = send receive s.sent (slot s s.expected) in
      record (set_slot s s.expected m) { sent = sent; expected = add32 s.expected 1 }

  -- The loop of `publishPendingMessages`, at most as many rounds as there is fuel.
  abbrev pub publish_from : ℕ → Merge → Merge
  publish_from zero s = s
  publish_from (suc fuel) s =
      let on = publish_from fuel (publish_next s) in if is_empty (slot s s.expected) then s else on

  -- Each round empties a message, so one for each is enough.
  unfoldable pub publish_pending_messages : Merge → Merge
  publish_pending_messages s = publish_from (length s.pending) s

  -- `send` of the message being handled.
  abbrev pub forward : Merge → Message → Merge × Message
  forward s m = let (sent, m') = send receive s.sent m in (record s { sent = sent }, m')

  module _ (sizeof_gap : ℕ) where
    -- The loop of `handleHeartbeat`.
    abbrev pub catch_up : ℕ → Merge → Outcome Merge
    catch_up zero s = loops
    catch_up (suc fuel) s =
        let round = and_then (find_and_publish_gap sizeof_gap s) (λ r. catch_up fuel (
          if r.0
          then publish_pending_messages (record (r.1) {
            stats = record (r.1.stats) {
              heartbeat_without_publish = add64 r.1.stats.heartbeat_without_publish 1;
            };
          })
          else r.1)) in
        if ltb s.expected s.last_heartbeat_highest then round else returns s

    abbrev pub remember : Merge → Merge
    remember s = record s {
      last_heartbeat_sequence = s.expected;
      last_heartbeat_highest = s.highest_stashed;
      heartbeat_delays = 0;
    }

    unfoldable pub handle_heartbeat : ℕ → Merge → Message → Outcome (Merge × Message)
    handle_heartbeat fuel s m =
        let counted = record s { heartbeat_delays = add64 s.heartbeat_delays 1 } in
        let caught_up =
          and_then (catch_up fuel counted) (λ s'. returns (forward (remember s') m)) in
        if s.expected == s.last_heartbeat_sequence
        then if leb counted.max_delay_heartbeats counted.heartbeat_delays
          then caught_up
          else returns (forward counted m)
        else returns (forward (remember s) m)

    -- The loop of `handleShutdown`.
    abbrev pub drain : ℕ → Merge → Outcome Merge
    drain zero s = loops
    drain (suc fuel) s = and_then (find_and_publish_gap sizeof_gap s) (λ r.
        let on = drain fuel (
          publish_pending_messages (record (r.1) {
            stats = record (r.1.stats) {
              shutdown_published_gap = add64 r.1.stats.shutdown_published_gap 1;
            };
          })) in
        if r.0 then on else returns r.1)

    -- A round for each pending message, and one that finds none.
    unfoldable pub handle_shutdown : Merge → Message → Outcome (Merge × Message)
    handle_shutdown s m = and_then (drain (suc (length s.pending)) s) (λ s'. returns (forward s' m))

    -- The loop for a message from beyond the window.
    abbrev pub make_room : ℕ → ℕ → Merge → Message → Outcome (Merge × Message)
    make_room zero sequence s m = loops
    make_room (suc fuel) sequence s m =
        let round = and_then (find_and_publish_gap sizeof_gap s) (λ r.
          let on = make_room fuel sequence (publish_pending_messages r.1) m in
          let skipped =
            and_then (publish_gap_message sizeof_gap r.1.expected sequence r.1)
              (λ s'. let (s'', m') = forward s' m in make_room fuel sequence s'' m') in
          if r.0 then on else skipped) in
        if ltb (sub32 sequence s.expected) s.look_ahead then round else returns (s, m)

    -- `handleDataMessage`, once a number is expected.
    abbrev pub place : ℕ → Merge → Message → Outcome (Merge × Message)
    place fuel s m =
        let sequence = m.sequence in
        let t = s.stats in
        let (now, m') =
          forward (record s { stats = record t { arrived_in_order = add64 t.arrived_in_order 1 } })
            m in
        let (kept, m'') = stash (record s { stats = record t { stashed = add64 t.stashed 1 } }) m in
        if sequence == s.expected
        then returns (publish_pending_messages (record now { expected = add32 now.expected 1 }), m')
        else if ltb sequence s.expected
        then returns (record s { stats = record t { previous = add64 t.previous 1 } }, m)
        else if ltb (sequence - s.expected) s.look_ahead
        then if is_empty (slot s sequence)
          then returns (
            record kept {
              highest_stashed =
                  if ltb kept.highest_stashed sequence then sequence else kept.highest_stashed;
            },
            m'',
          )
          else returns
              (record s { stats = record t { duplicates_stash = add64 t.duplicates_stash 1 } }, m)
        else and_then
            (make_room fuel sequence (record s { stats = record t { future = add64 t.future 1 } })
              m)
            (λ r.
              let (s', m''') = stash r.0 r.1 in
              returns (record s' { highest_stashed = sequence }, m'''))

    -- The first message sets the number to expect.
    unfoldable pub handle_data_message : ℕ → Merge → Message → Outcome (Merge × Message)
    handle_data_message fuel s m =
        place fuel
          (if s.expected == 0
            then record s { expected = m.sequence; highest_stashed = m.sequence }
            else s)
          m

    unfoldable pub handle : ℕ → Merge → Message → Outcome (Merge × Message)
    handle fuel s m =
        let t = record (s.stats) { received = add64 s.stats.received 1 } in
        elim m.kind [
          | heartbeat ↦
              handle_heartbeat fuel
                (record s { stats = record t { heartbeats = add64 t.heartbeats 1 } }) m
          | shutdown ↦
              handle_shutdown (record s { stats = record t { shutdowns = add64 t.shutdowns 1 } }) m
          | _ ↦
              handle_data_message fuel (record s { stats = record t { datas = add64 t.datas 1 } }) m
        ]
