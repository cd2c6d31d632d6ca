-- ===== src/Steps/InputQueue.antt =====
-- src/StepLibrary/InputQueue.cpp: the step that gets messages from a queue and sends them on.
pub mod Relay
use hsqueue.Base.{
  ℕ, Bool, true, false, not, List, [], ◌∷◌, ◌++◌, Option, none, some, if◌then◌else◌, Result, ok,
  err, ◌>>=◌, Error, codes,
}
use hsqueue.Message.{Message}
use hsqueue.Memory.BlockPool.{MemoryPool}
use hsqueue.Wait.{WaitStrategy, forever, make_wait_strategy}
use hsqueue.Queue.Header.{Header, Parameters}
use hsqueue.Queue.Producer.{Tick, Progress, finished, thrown, still_waiting}
use hsqueue.Queue.Consumer
use hsqueue.Queue.Consumer.{Consumer, get_next, make_consumer}
use hsqueue.Queue.Connection.{Connection, create_local, get_header}
use hsqueue.Steps.Step
use hsqueue.Steps.Step.{Step, same_text}
use hsqueue.Steps.Configuration.{
  Node, Nodes, nil, cons, name_of, text_of, children_of, get_number, get_bool,
}
use hsqueue.Steps.Resources.{Resources, add_queue, request_messages}
use hsqueue.Steps.Send.{Destination, send}

-- The step's own members, besides the output message.
pub record InputQueue : Type 0 where
  pub step : Step
  pub discard_messages_if_no_consumer : Bool
  pub parameters : Parameters
  pub consumer : Option Consumer

-- The local variables of `constructWaitStrategy`.
pub record Counts : Type 0 where
  pub spin_count : ℕ
  pub yield_count : ℕ
  pub sleep_count : ℕ
  pub sleep_period : ℕ
  pub mutex_wait_timeout : ℕ

abbrev pub no_counts : Counts
no_counts = record {
  spin_count = forever;
  yield_count = forever;
  sleep_count = forever;
  sleep_period = forever;
  mutex_wait_timeout = forever;
}

-- A number, or the word `forever`.
abbrev pub read_count : (List ℕ → Option ℕ) → Node → Option ℕ
read_count lexical_cast n =
    let (known, value) = get_number lexical_cast 0 n in
    let text : List ℕ = elim (text_of n) [ none ↦ [] | some t ↦ t ] in
    if same_text text (codes "forever") then some forever else if known then some value else none

-- The member that a key names; none for an unknown key.
abbrev pub set_count : List ℕ → ℕ → Counts → Option Counts
set_count key value c =
    if same_text key (codes "spin_count")
    then some (record c { spin_count = value })
    else if same_text key (codes "yield_count")
    then some (record c { yield_count = value })
    else if same_text key (codes "sleep_count")
    then some (record c { sleep_count = value })
    else if same_text key (codes "sleep_nanoseconds")
    then some (record c { sleep_period = value })
    else if same_text key (codes "timeout_nanoseconds")
    then some (record c { mutex_wait_timeout = value })
    else none

abbrev pub then_set : List ℕ → Counts → Option ℕ → Option Counts
then_set key c none = none
then_set key c (some value) = set_count key value c

abbrev pub read_counts : (List ℕ → Option ℕ) → Nodes → Option Counts → Option Counts
read_counts lexical_cast nodes none = none
read_counts lexical_cast nil (some c) = some c
read_counts lexical_cast (cons n ns) (some c) =
    read_counts lexical_cast ns (then_set (name_of n) c (read_count lexical_cast n))

abbrev pub strategy_of : Counts → WaitStrategy
strategy_of c =
    make_wait_strategy c.spin_count c.yield_count c.sleep_count c.sleep_period c.mutex_wait_timeout

-- `constructWaitStrategy`: the strategy stays as it was where a parameter cannot be read.
unfoldable pub construct_wait_strategy :
    (List ℕ → Option ℕ) → Node → WaitStrategy → Bool × WaitStrategy
construct_wait_strategy lexical_cast n strategy =
    elim (read_counts lexical_cast (children_of n) (some no_counts)) [
      | none ↦ (false, strategy)
      | some c ↦ (true, strategy_of c)
    ]

pub data Key : Type 0 where
  producer_key consumer_key common_key discard_key entry_count_key other_key : Key

-- The first key is spelled so in the source.
abbrev pub key_of : List ℕ → Key
key_of name =
    if same_text name (codes "produder_wait_strategy")
    then producer_key
    else if same_text name (codes "consumer_wait_strategy")
    then consumer_key
    else if same_text name (codes "common_wait_strategy")
    then common_key
    else if same_text name (codes "discard_messages_if_no_consumer")
    then discard_key
    else if same_text name (codes "entry_count")
    then entry_count_key
    else other_key

-- What the code takes from outside: `lexical_cast`, `tolower`, and `Step::configureParameter`.
pub record Outside : Type 0 where
  pub lexical_cast : List ℕ → Option ℕ
  pub tolower : ℕ → ℕ
  pub base : Node → Step → Bool × Step

abbrev pub ask_base : Outside → Node → InputQueue → Bool × InputQueue
ask_base o n s = let (known, step) = o.base n s.step in (known, record s { step = step })

-- The branches of `configureParameter`; two of them ask the base class too where they fail.
unfoldable pub configure_key : Outside → Key → Node → InputQueue → Bool × InputQueue
configure_key o producer_key n s =
    let (known, w) = construct_wait_strategy o.lexical_cast n s.parameters.producer_wait_strategy in
    (known, record s { parameters = record (s.parameters) { producer_wait_strategy = w } })
configure_key o consumer_key n s =
    let (known, w) = construct_wait_strategy o.lexical_cast n s.parameters.consumer_wait_strategy in
    (known, record s { parameters = record (s.parameters) { consumer_wait_strategy = w } })
configure_key o common_key n s =
    let (known, w) = construct_wait_strategy o.lexical_cast n s.parameters.producer_wait_strategy in
    if known
    then (
      true,
      record s {
        parameters = record (s.parameters) {
          producer_wait_strategy = w;
          consumer_wait_strategy = w;
        };
      },
    )
    else ask_base o n s
configure_key o discard_key n s =
    let (known, b) = get_bool o.tolower false n in
    let s' = record s { discard_messages_if_no_consumer = b } in
    if known then (true, s') else ask_base o n s'
configure_key o entry_count_key n s =
    let (known, count) = get_number o.lexical_cast 0 n in
    if known
    then (true, record s { parameters = record (s.parameters) { entry_count = count } })
    else (false, s)
configure_key o other_key n s = ask_base o n s

abbrev pub configure_parameter : Outside → Node → InputQueue → Bool × InputQueue
configure_parameter o n s = configure_key o (key_of (name_of n)) n s

-- `configureResources`: `connection` is the number of the step's own queue; `base` is what
-- `StepToMessage::configureResources` asks for.
unfoldable pub configure_resources :
    (Resources → Resources) → ℕ → InputQueue → Resources → Resources
configure_resources base connection s r =
    base (request_messages s.parameters.entry_count (add_queue s.step.name connection r))

-- The consumer that is made on the connection's header.
abbrev pub attach_consumer : InputQueue → Result Header → Result (InputQueue × Header)
attach_consumer s (err e) = err e
attach_consumer s (ok h) = make_consumer h >>= λ r. ok (record s { consumer = some r.0 }, r.1)

abbrev pub attach_created :
    InputQueue → Option (Result Connection × Connection) → Option (Result (InputQueue × Header))
attach_created s none = none
attach_created s (some (err e, c)) = some (err e)
attach_created s (some (ok c, _)) = some (attach_consumer s (get_header c))

-- `attachResources`; `none` stands for a pool whose construction does not end.
unfoldable pub attach_resources :
    ℕ
    → ℕ
    → (ℕ → ℕ)
    → Connection
    → Option MemoryPool
    → InputQueue
    → Option (Result (InputQueue × Header))
attach_resources sizeof_pool base links c pool s =
    attach_created s (create_local sizeof_pool base links c s.step.name s.parameters pool)

abbrev pub stop_consumer : Option Consumer → Option Consumer
stop_consumer none = none
stop_consumer (some c) = some (Consumer.stop c)

-- `stop`, which does nothing the second time.
unfoldable pub stop : InputQueue → InputQueue
stop s =
    if s.step.stopping
    then s
    else record s { step = Step.stop s.step; consumer = stop_consumer s.consumer }

-- `run` as it goes: the step, the header and the output message, and what was sent.
pub record Running : Type 0 where
  pub queue : InputQueue
  pub header : Header
  pub message : Message
  pub sent : List Message

abbrev pub after_get :
    Destination → InputQueue → List Message → Progress (Bool × Consumer.Scene) → Progress Running
after_get receive s sent (finished (true, r)) =
    let (sent', m) = send receive sent r.message in
    finished (record {
      queue = record s { consumer = some r.consumer };
      header = r.header;
      message = m;
      sent = sent';
    })
after_get receive s sent (finished (false, r)) = finished (record {
  queue = stop (record s { consumer = some r.consumer });
  header = r.header;
  message = r.message;
  sent = sent;
})
after_get receive s sent (thrown e (_, r)) = thrown e (record {
  queue = record s { consumer = some r.consumer };
  header = r.header;
  message = r.message;
  sent = sent;
})
after_get receive s sent (still_waiting (_, r)) = still_waiting (record {
  queue = record s { consumer = some r.consumer };
  header = r.header;
  message = r.message;
  sent = sent;
})

-- A round of `run`, with the ticks of its `getNext`.
unfoldable pub round : Destination → List Tick → Consumer → Running → Progress Running
unfolding send stop
round receive ts c r =
    after_get receive r.queue r.sent
      (get_next ts (record { consumer = c; header = r.header; message = r.message }))

abbrev pub round_of : Destination → List Tick → Option Consumer → Running → Progress Running
round_of receive ts none r = still_waiting r
round_of receive ts (some c) r = round receive ts c r

abbrev pub then_run : Progress Running → (Running → Progress Running) → Progress Running
then_run (finished r) more = more r
then_run (thrown e r) more = thrown e r
then_run (still_waiting r) more = still_waiting r

-- `run`, each round with its ticks. Without `attachResources` there is no consumer, and it is not run.
unfoldable pub run : Destination → List (List Tick) → Running → Progress Running
unfolding round
run receive [] r = if r.queue.step.stopping then finished r else still_waiting r
run receive (ts ∷ rounds) r =
    if r.queue.step.stopping
    then finished r
    else then_run (round_of receive ts r.queue.consumer r) (λ r'. run receive rounds r')
