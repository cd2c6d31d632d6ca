-- ===== src/Steps/Copying.antt =====
-- `Step::send` and the copy of a message into the output message, as the steps of src/StepLibrary
-- that copy use them (FanOut.cpp, RoundRobin.cpp, BinaryPassThru.cpp), with src/Steps/StepToMessage.cpp
-- that gives them the output message. What a destination gets is kept as a parcel, since the bytes of
-- its block may change later.
use hsqueue.Base.{
  ℕ, zero, suc, ◌+◌, Bool, true, List, [], ◌∷◌, ◌++◌, if◌then◌else◌, Result, ok, err, ◌>>=◌, Error,
  Option, none, some, no_resources, add64,
}
use hsqueue.Message.{
  Message, MessageType, Memory, payload, get, append_binary_copy, copy_meta_info_to, set_empty,
  blank,
}
use hsqueue.Memory.BlockPool.{BlockPool, allocate}
use hsqueue.Steps.Step.{Step, must_have_destination}
use hsqueue.Steps.Resources.{Resources, request_messages}
pub mod Copies
pub mod Room

pub record Parcel : Type 0 where
  pub kind : MessageType
  pub timestamp : ℕ
  pub sequence : ℕ
  pub content : List ℕ

abbrev pub parcel : Memory → Message → Parcel
parcel mem m = record {
  kind = m.kind;
  timestamp = m.timestamp;
  sequence = m.sequence;
  content = payload mem m;
}

-- What destinations have got, each parcel with the destination's index.
abbrev pub Deliveries : Type 0
Deliveries = List (ℕ × Parcel)

-- What a destination's `handle` does with the memory and the message.
abbrev pub Receiver : Type 0
Receiver = ℕ → Deliveries → Memory → Message → Memory × Message

pub record World : Type 0 where
  pub memory : Memory
  pub sent : Deliveries

-- `send(index, message)`
unfoldable pub send_to : Receiver → ℕ → World → Message → World × Message
send_to receive index w m =
    let (mem, m') = receive index w.sent w.memory m in
    (record { memory = mem; sent = w.sent ++ (index, parcel w.memory m) ∷ [] }, set_empty m')

-- What was copied into the output message is sent with the message's meta information; where the
-- output message is too small, it stays as it was.
abbrev pub send_copied :
    Receiver
    → ℕ
    → Message
    → World × Message
    → Result (Memory × Message)
    → Result {0} Unit × World × Message
send_copied receive index m (w, out) (err e) = (err e, w, out)
send_copied receive index m (w, out) (ok (mem, out')) =
    let (w', out'') =
      send_to receive index (record w { memory = mem }) (copy_meta_info_to m out') in
    (ok tt, w', out'')

-- A binary copy of the message is sent.
unfoldable pub send_copy :
    Receiver → ℕ → Message → World × Message → Result {0} Unit × World × Message
unfolding send_to
send_copy receive index m (w, out) =
    send_copied receive index m (w, out) (append_binary_copy 1 w.memory out (get m) m.used)

-- A round that throws ends the loop; one that returns counts.
abbrev pub join :
    Result {0} Unit × World × Message
    → Result {0} Unit × ℕ × World × Message
    → Result {0} Unit × ℕ × World × Message
join (err e, w, out) rest = (err e, 0, w, out)
join (ok _, w, out) (done, count, w', out') = (done, suc count, w', out')

-- The loop over the destinations from an index, for so many rounds; with how many copies were sent.
unfoldable pub send_copies :
    Receiver → Message → ℕ → ℕ → World × Message → Result {0} Unit × ℕ × World × Message
send_copies receive m index zero (w, out) = (ok tt, 0, w, out)
send_copies receive m index (suc rounds) (w, out) =
    let first = send_copy receive index m (w, out) in
    join first (send_copies receive m (index + 1) rounds (first.1, first.2))

-- `StepToMessage`: the members besides the step's.
pub record StepToMessage : Type 0 where
  pub destination_is_required : Bool
  pub out_message : Option Message

abbrev pub make_step_to_message : StepToMessage
make_step_to_message = record { destination_is_required = true; out_message = none }

unfoldable pub configure_resources : Resources → Resources
configure_resources r = request_messages 1 r

-- The output message takes a block of the pool, where there is a pool.
unfoldable pub attach_resources :
    Option BlockPool → StepToMessage → Result (Option BlockPool × StepToMessage)
attach_resources none s = ok (none, s)
attach_resources (some pool) s =
    allocate pool blank >>= λ r. ok (some r.0, record s { out_message = some r.1 })

unfoldable pub validate : Step → StepToMessage → Result {0} Unit
unfolding must_have_destination
validate base s =
    if s.destination_is_required
    then (must_have_destination base >>= λ _. elim s.out_message [
      | none ↦ err no_resources
      | some m ↦ ok tt
    ])
    else ok tt
