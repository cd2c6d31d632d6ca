-- ===== src/Steps/JoinedExamples.antt =====
-- Configured queues, and two messages through a queue that joins two pipelines.
use hsqueue.Base.{
  ℕ, ◌+◌, ◌*◌, ◌-◌, ◌≡◌, refl, true, false, List, [], ◌∷◌, ◌++◌, Option, none, some, length, arith,
  codes,
}
use hsqueue.Message.{Message, blank}
use hsqueue.Wait.{forever, make_wait_strategy}
use hsqueue.Queue.Header.{Header}
use hsqueue.Queue.Producer.{Tick, finished}
use hsqueue.Queue.Consumer.{new_consumer}
use hsqueue.Queue.Window.{ring, contents}
use hsqueue.Queue.Fixture.{header, producer, parameters, message, system-Started}
use hsqueue.Steps.Step.{make_step}
use hsqueue.Steps.Configuration.{Node, node, nil, cons, get_bool, get_number}
use hsqueue.Steps.SendToQueue.{SendToQueue, handle_all}
use hsqueue.Steps.InputQueue.{
  InputQueue, Running, construct_wait_strategy, configure_parameter, configure_key, run,
}
use hsqueue.Steps.InputQueue.Relay.{IsOpen, rounds, run_lem}
use hsqueue.Steps.Joined.{run-handle_all}

-- Decimal digits.
abbrev decimal : List ℕ → ℕ → Option ℕ
decimal [] n = some n
decimal (c ∷ cs) n = decimal cs (10 * n + (c - 48))

abbrev digits : List ℕ → Option ℕ
digits text = decimal text 0

abbrev leaf : List ℕ → List ℕ → Node
leaf name value = node name (some value) nil

abbrev wait_node : Node
wait_node = node (codes "common_wait_strategy") none (
    cons (leaf (codes "spin_count") (codes "100"))
      (cons (leaf (codes "sleep_count") (codes "forever")) nil))

-- What is not given waits forever.
read_strategy :
    construct_wait_strategy digits wait_node parameters.producer_wait_strategy
    ≡ (true, make_wait_strategy 100 forever forever forever forever)
unfolding construct_wait_strategy get_number
read_strategy = refl

abbrev small : ℕ → ℕ
small c = c

says : get_bool small true (leaf [] (codes "no")) ≡ (true, false)
unfolding get_bool
says = refl

abbrev sender : SendToQueue
sender = record {
  step = make_step;
  queue_name = codes "q";
  connection = some 0;
  producer = some producer;
}

abbrev reader : InputQueue
reader = record {
  step = make_step;
  discard_messages_if_no_consumer = false;
  parameters = parameters;
  consumer = some (new_consumer header);
}

-- `discard_messages_if_no_consumer: yes` is accepted, and does not come into the queue's parameters.
discard_is_lost :
    (configure_parameter
      (record { lexical_cast = digits; tolower = small; base = λ n s. (false, s) })
      (leaf (codes "discard_messages_if_no_consumer") (codes "yes"))
      reader).1.parameters.discard_messages_if_no_consumer
    ≡ false
unfolding configure_key get_bool
discard_is_lost = refl

abbrev running : Running
running = record { queue = reader; header = header; message = blank; sent = [] }

abbrev still : Tick
still = record { change = λ h. h; timed_out = false; stop = false }

abbrev stopped : Tick
stopped = record { change = λ h. h; timed_out = false; stop = true }

running-IsOpen : IsOpen (new_consumer header) running
running-IsOpen = record {
  attached = refl;
  going = refl;
  calm = record {
    valid = system-Started.ready.valid;
    knows = system-Started.ready.consumer_knows;
    early = omega arith;
    going = refl;
  };
}

run_example :
    (r' : Running) × (run (λ l m. m) (rounds 0 still stopped) running ≡ finished r')
    × (r'.sent ≡ [] ++ [])
    × (contents (ring r'.header) ≡ [])
    × (r'.queue.step.stopping ≡ true)
unfolding contents
run_example =
    run_lem (λ l m. m) still stopped [] (new_consumer header) running (refl, refl, λ h. refl)
      running-IsOpen refl

abbrev two : List Message
two = message 1 ∷ message 2 ∷ []

run-handle_all_example :
    (s' : SendToQueue) × (h' : Header) × (m' : Message) × (r' : Running) × (handle_all 1
        (still ∷ [])
        sender
        header
        two
      ≡ finished (s', h', m'))
    × (run
          (λ l m. m)
          (rounds (length (contents (ring header) ++ two)) still stopped)
          (record running { header = h' })
        ≡ finished r')
    × (r'.sent ≡ [] ++ (contents (ring header) ++ two))
    × (contents (ring r'.header) ≡ [])
unfolding contents
run-handle_all_example =
    run-handle_all (λ l m. m) 0 still stopped [] two sender header producer (new_consumer header)
      running (refl, refl, λ h. refl)
      (record {
        attached = refl;
        valid = system-Started.ready.valid;
        knows = system-Started.ready.producer_knows;
        going = refl;
      })
      running-IsOpen refl (refl, (refl, tt)) (omega arith) (omega arith)
