-- ===== src/Steps/SendToQueue.antt =====
-- src/StepLibrary/SendToQueue.cpp: the step that publishes what it is handed to a queue.
use hsqueue.Base.{
  ℕ, Bool, true, false, List, [], ◌∷◌, Option, none, some, if◌then◌else◌, Result, ok, err, ◌>>=◌,
  configuration_error, codes, ◌==◌,
}
use hsqueue.Message.{Message, MessageType, shutdown, blank}
use hsqueue.Queue.Header.{Header}
use hsqueue.Queue.Producer
use hsqueue.Queue.Producer.{
  Producer, Tick, Progress, finished, thrown, still_waiting, publish, make_producer,
}
use hsqueue.Queue.Connection.{Connection, will_produce, can_solo, get_header}
use hsqueue.Steps.Step
use hsqueue.Steps.Step.{Step, same_text, must_not_have_destination}
use hsqueue.Steps.Configuration.{Node, name_of, text_of}
use hsqueue.Steps.Resources.{Resources, find_queue}

-- `connection` is the number of the queue found; the connections themselves are shared.
pub record SendToQueue : Type 0 where
  pub step : Step
  pub queue_name : List ℕ
  pub connection : Option ℕ
  pub producer : Option Producer

-- `base` is `Step::configureParameter` of the node. A node without a text gives the empty name.
unfoldable pub configure_parameter :
    (Node → Step → Bool × Step) → Node → SendToQueue → Bool × SendToQueue
configure_parameter base n s =
    let (known, step) = base n s.step in
    if same_text (name_of n) (codes "queue")
    then (true, record s { queue_name = elim (text_of n) [ none ↦ [] | some text ↦ text ] })
    else (known, record s { step = step })

-- The connections with a change to one of them.
abbrev pub change_at : (ℕ → Connection) → ℕ → Connection → ℕ → Connection
change_at connections i c j = if i == j then c else connections j

-- `attachResources`: the queue of the name, if it is there, will have one more producer.
unfoldable pub attach_resources :
    Resources → (ℕ → Connection) → SendToQueue → SendToQueue × (ℕ → Connection)
attach_resources r connections s = elim (find_queue s.queue_name r) [
  | none ↦ (record s { connection = none }, connections)
  | some i ↦
      (record s { connection = some i }, change_at connections i (will_produce (connections i)))
]

unfoldable pub validate : SendToQueue → Result {0} Unit
validate s = must_not_have_destination s.step >>= λ _. elim s.connection [
  | none ↦ err configuration_error
  | some i ↦ ok tt
]

-- `start` makes the producer; `discards` is what its constructor finds in the member that it does not
-- set.
unfoldable pub start : ℕ → Connection → SendToQueue → Result (SendToQueue × Header)
start discards c s = get_header c >>= λ h.
    let (p, h') = make_producer (can_solo c) discards h in ok (record s { producer = some p }, h')

abbrev pub stop_producer : Option Producer → Option Producer
stop_producer none = none
stop_producer (some p) = some (Producer.stop p)

unfoldable pub stop : SendToQueue → SendToQueue
stop s = record s { step = Step.stop s.step; producer = stop_producer s.producer }

abbrev pub is_shutdown : MessageType → Bool
is_shutdown shutdown = true
is_shutdown _ = false

-- How far a call of `handle` got: the step, the header and the message.
abbrev pub State : Type 0
State = SendToQueue × Header × Message

abbrev pub after_publish : MessageType → SendToQueue → Progress Producer.Scene → Progress State
after_publish kind s (finished r) =
    let s' = record s { producer = some r.producer } in
    finished (if is_shutdown kind then stop s' else s', r.header, r.message)
after_publish kind s (thrown e r) =
    thrown e (record s { producer = some r.producer }, r.header, r.message)
after_publish kind s (still_waiting r) =
    still_waiting (record s { producer = some r.producer }, r.header, r.message)

-- `handle` with the producer that `start` made. The kind is read before the message is published; a
-- shutdown stops the step behind it.
unfoldable pub handle :
    ℕ → List Tick → Option Producer → SendToQueue → Header → Message → Progress State
unfolding stop
handle rounds ts none s h m = still_waiting (s, h, m)
handle rounds ts (some p) s h m =
    after_publish m.kind s (publish rounds ts (record { producer = p; header = h; message = m }))

abbrev pub then_handle : Progress State → (SendToQueue → Header → Progress State) → Progress State
then_handle (finished (s, h, m)) more = more s h
then_handle (thrown e r) more = thrown e r
then_handle (still_waiting r) more = still_waiting r

-- The step before it hands it one message after the other; each call gets as many rounds and the same
-- ticks.
unfoldable pub handle_all : ℕ → List Tick → SendToQueue → Header → List Message → Progress State
handle_all rounds ts s h [] = finished (s, h, blank)
handle_all rounds ts s h (m ∷ ms) =
    then_handle (handle rounds ts s.producer s h m) (λ s' h'. handle_all rounds ts s' h' ms)
