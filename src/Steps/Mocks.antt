-- ===== src/Steps/Mocks.antt =====
-- The test messages of src/Mocks/MockMessage.hpp, the step that makes them
-- (src/StepLibrary/MockMessageProducer.cpp and hpp) and the step that checks them
-- (MockMessageConsumer.cpp and hpp, GapMesssage.hpp). The objects in messages are lists of 32-bit
-- words. Destinations leave the type of the output message as it is.
use hsqueue.Base.{
  ℕ, zero, suc, ◌+◌, ◌%◌, ◌-◌, Bool, true, false, not, ◌&&◌, ◌||◌, List, [], ◌∷◌, ◌++◌, Option,
  none, some, ltb, leb, ◌==◌, if◌then◌else◌, add32, w32, get_or, tabulate, Result, ok, err,
  configuration_error, ◌>>=◌,
}
use hsqueue.Message.{MessageType, mock_message, heartbeat, shutdown, gap, unused}
use hsqueue.Steps.Resources.{Resources, request_message_size}
pub mod Counts
mod Examples

-- `MockMessage<ExtraCount>`: the sequence number, the producer's number, and words that are their index.
unfoldable pub make_mock_message : ℕ → ℕ → ℕ → List ℕ
make_mock_message extra_count producer_number sequence_number =
    sequence_number ∷ producer_number ∷ tabulate (λ i. i % w32) 2 extra_count

unfoldable pub get_sequence : List ℕ → ℕ
get_sequence words = get_or words 0 0

unfoldable pub producer_number : List ℕ → ℕ
producer_number words = get_or words 1 0

-- The sum of all words.
unfoldable pub touch : List ℕ → ℕ
touch [] = 0
touch (w ∷ ws) = add32 w (touch ws)

-- `GapMessage(startGap, gapEnd)`
unfoldable pub make_gap_message : ℕ → ℕ → List ℕ
make_gap_message start_gap gap_end = start_gap ∷ gap_end ∷ []

unfoldable pub end_gap : List ℕ → ℕ
end_gap words = get_or words 1 0

-- What a destination gets.
pub record Delivery : Type 0 where
  pub kind : MessageType
  pub sequence : ℕ
  pub words : List ℕ

-- `BaseMessageProducer`; the start signal is looked at through the ticks.
pub record MockProducer : Type 0 where
  pub stopping : Bool
  pub has_start_signal : Bool
  pub message_count : ℕ
  pub number : ℕ
  pub message_number : ℕ

-- `~uint32_t(0)`, for a count that was not given.
abbrev pub no_count : ℕ
no_count = w32 - 1

abbrev pub make_mock_producer : MockProducer
make_mock_producer = record {
  stopping = false;
  has_start_signal = false;
  message_count = no_count;
  number = 0;
  message_number = 0;
}

unfoldable pub set_start_signal : MockProducer → MockProducer
set_start_signal p = record p { has_start_signal = true }

pub data ProducerKey : Type 0 where
  message_count_key producer_number_key other_key : ProducerKey

-- A number that cannot be read is `none`; `base` is the answer of the base class.
unfoldable pub configure_producer :
    ProducerKey → Option ℕ → Bool → MockProducer → Bool × MockProducer
configure_producer message_count_key (some n) base p = (true, record p { message_count = n % w32 })
configure_producer producer_number_key (some n) base p = (true, record p { number = n % w32 })
configure_producer other_key value base p = (base, p)
configure_producer key none base p = (false, p)

-- `validate` after the base class's.
unfoldable pub validate_producer : Result {0} Unit → MockProducer → Result {0} Unit
validate_producer base p =
    base >>= λ _. if p.message_count == no_count then err configuration_error else ok tt

-- `size` is the size of the message type.
unfoldable pub configure_producer_resources : ℕ → (Resources → Resources) → Resources → Resources
configure_producer_resources size base r = base (request_message_size size r)

-- What happens before a test of one of the loops: whether the signal is given, whether `stop` is called.
pub record Tick : Type 0 where
  pub signalled : Bool
  pub stop : Bool

abbrev pub stop_if : Bool → MockProducer → MockProducer
stop_if stop p = record p { stopping = p.stopping || stop }

await : List Tick → MockProducer → Option (MockProducer × List Tick)
await [] p = none
await (t ∷ ts) p =
    let more = await ts (stop_if t.stop p) in
    if t.signalled then some (stop_if t.stop p, ts) else more

-- The wait for the start signal, with the ticks that are left; `none` where they end in it.
unfoldable pub await_signal : List Tick → MockProducer → Option (MockProducer × List Tick)
unfolding await
await_signal ts p = if p.has_start_signal then await ts p else some (p, ts)

-- The test of the loop of `run`.
abbrev pub goes_on : MockProducer → Bool
goes_on p = not p.stopping && (p.message_count == 0 || ltb p.message_number p.message_count)

-- The loop of `run`: what it sends, and the producer; `none` where the ticks end in it. The last
-- message sent is the shutdown, which keeps the sequence number and has no object.
unfoldable pub produce_loop :
    ℕ → List Tick → ℕ → MockProducer → List Delivery → Option (List Delivery × MockProducer)
produce_loop extra [] last p sent = none
produce_loop extra (t ∷ ts) last p sent =
    let p' = stop_if t.stop p in
    let n = p'.message_number in
    let more =
      produce_loop extra ts n (record p' { message_number = add32 n 1 })
        (sent
          ++ record {
            kind = mock_message;
            sequence = n;
            words = make_mock_message extra p'.number n;
          }
            ∷ []) in
    if goes_on p'
    then more
    else some (sent ++ record { kind = shutdown; sequence = last; words = [] } ∷ [], p')

abbrev pub run_from :
    ℕ → ℕ → Option (MockProducer × List Tick) → Option (List Delivery × MockProducer)
run_from extra last none = none
run_from extra last (some (p, ts)) = produce_loop extra ts last (record p { message_number = 0 }) []

-- `run`; `last` is the sequence number that the output message has before.
unfoldable pub run : ℕ → List Tick → ℕ → MockProducer → Option (List Delivery × MockProducer)
unfolding await_signal
run extra ts last p = run_from extra last (await_signal ts p)

-- `BaseMessageConsumer`
pub record MockConsumer : Type 0 where
  pub stopping : Bool
  pub message_count : ℕ
  pub heartbeats : ℕ
  pub shutdowns : ℕ
  pub gaps : ℕ
  pub messages_handled : ℕ
  pub next_sequence : ℕ
  pub sequence_error : ℕ
  pub unexpected_message_error : ℕ

abbrev pub make_mock_consumer : ℕ → MockConsumer
make_mock_consumer message_count = record {
  stopping = false;
  message_count = message_count;
  heartbeats = 0;
  shutdowns = 0;
  gaps = 0;
  messages_handled = 0;
  next_sequence = 0;
  sequence_error = 0;
  unexpected_message_error = 0;
}

pub data ConsumerKey : Type 0 where
  count_key any_key : ConsumerKey

-- A count that cannot be read is taken to be 0.
unfoldable pub configure_consumer :
    ConsumerKey → Option ℕ → Bool → MockConsumer → Bool × MockConsumer
configure_consumer count_key (some n) base c = (true, record c { message_count = n % w32 })
configure_consumer count_key none base c = (true, record c { message_count = 0 })
configure_consumer any_key value base c = (base, c)

-- The case of a test message.
abbrev pub check_message : List ℕ → MockConsumer → MockConsumer
check_message words c =
    let n = get_sequence words in
    let handled = add32 c.messages_handled 1 in
    record c {
      sequence_error = if c.next_sequence == n then c.sequence_error else add32 c.sequence_error 1;
      next_sequence = add32 n 1;
      messages_handled = handled;
      stopping = c.stopping || not (c.message_count == 0) && leb c.message_count handled;
    }

unfoldable pub handle_kind : MessageType → List ℕ → MockConsumer → MockConsumer
unfolding get_sequence end_gap
handle_kind shutdown words c =
    if c.message_count == 0
    then record c { shutdowns = add32 c.shutdowns 1; stopping = true }
    else c
handle_kind mock_message words c = check_message words c
handle_kind heartbeat words c = record c { heartbeats = add32 c.heartbeats 1 }
handle_kind gap words c = record c { next_sequence = end_gap words; gaps = add32 c.gaps 1 }
handle_kind _ words c = record c { unexpected_message_error = add32 c.unexpected_message_error 1 }

-- `handle`
abbrev pub handle : Delivery → MockConsumer → MockConsumer
handle d c = handle_kind d.kind d.words c

abbrev pub handle_all : List Delivery → MockConsumer → MockConsumer
handle_all [] c = c
handle_all (d ∷ ds) c = handle_all ds (handle d c)
