-- ===== src/Steps/InputQueue/Relay.antt =====
-- `InputQueue::run` of src/StepLibrary/InputQueue.cpp sends on what the queue holds, in order.
use hsqueue.Base.{
  ℕ, ◌≡◌, refl, sym, ap, ◌∙◌, true, false, List, [], ◌∷◌, ◌++◌, some, length, replicate, arith,
  if_of_false,
}
use mathlib.Core.List.{append-nil, append_assoc}
use hsqueue.Message.{Message}
use hsqueue.Queue.Producer.{Tick, finished}
use hsqueue.Queue.Consumer
use hsqueue.Queue.Consumer.{Consumer, Scene, get_next}
use hsqueue.Queue.Window.{ring, contents, length-contents}
use hsqueue.Queue.Waiting.{IsCalm, IsStop, get_next-some, get_next-stop}
use hsqueue.Steps.Send.{Destination, send}
use hsqueue.Steps.Step
use hsqueue.Steps.InputQueue.{Running, after_get, round, round_of, then_run, run, stop}

abbrev pub scene : Consumer → Running → Scene
scene c r = record { consumer = c; header = r.header; message = r.message }

-- The step has its consumer, nobody has stopped it, and its queue is in order.
pub record IsOpen (c : Consumer) (r : Running) : Type 0 where
  pub attached : r.queue.consumer ≡ some c
  pub going : r.queue.step.stopping ≡ false
  pub calm : IsCalm (scene c r)

-- One round for each message, and one in which `stop` is called.
abbrev pub rounds : ℕ → Tick → Tick → List (List Tick)
rounds n t stops = replicate n (t ∷ []) ++ (stops ∷ t ∷ []) ∷ []

-- What a round that got a message leaves, and one that got none.
abbrev relayed : Destination → Running → Scene → Running
relayed receive r s' = record {
  queue = record (r.queue) { consumer = some s'.consumer };
  header = s'.header;
  message = (send receive r.sent s'.message).1;
  sent = (send receive r.sent s'.message).0;
}

abbrev ended : Running → Scene → Running
ended r s' = record {
  queue = record (r.queue) {
    step = Step.stop r.queue.step;
    consumer = some (Consumer.stop s'.consumer);
  };
  header = s'.header;
  message = s'.message;
  sent = r.sent;
}

module _ (receive : Destination) (c : Consumer) (r : Running) (o : IsOpen c r) (ts : List Tick)
    (rest : List (List Tick)) (s' : Scene) where
  run-relayed :
      get_next ts (scene c r) ≡ finished (true, s')
      → run receive (ts ∷ rest) r ≡ run receive rest (relayed receive r s')
  unfolding run round
  run-relayed e =
      if_of_false _ _ o.going
      ∙ ap (λ p. then_run p (λ r'. run receive rest r'))
          (ap (λ k. round_of receive ts k r) o.attached ∙ ap (after_get receive r.queue r.sent) e)

  run-ended :
      get_next ts (scene c r) ≡ finished (false, s')
      → run receive (ts ∷ rest) r ≡ run receive rest (ended r s')
  unfolding run round stop
  run-ended e =
      if_of_false _ _ o.going
      ∙ ap (λ p. then_run p (λ r'. run receive rest r'))
          (ap (λ k. round_of receive ts k r) o.attached
            ∙ ap (after_get receive r.queue r.sent) e
            ∙ ap
                (λ q.
                  finished
                    (record { queue = q; header = s'.header; message = s'.message; sent = r.sent }))
                (if_of_false _ _ o.going))

module _ {A : Type 0} where
  cons_head : {x y : A} {l k : List A} → x ∷ l ≡ y ∷ k → x ≡ y
  cons_head e = cc e

  cons_tail : {x y : A} {l k : List A} → x ∷ l ≡ y ∷ k → l ≡ k
  cons_tail e = cc e

-- An open step sends all that its queue holds to its destination, oldest first, in as many rounds; when
-- `stop` is called in the next one it stops, and `run` returns.
pub run_lem :
    (receive : Destination) (t stops : Tick) (l : List Message) (c : Consumer) (r : Running)
    → IsStop stops
    → IsOpen c r
    → contents (ring r.header) ≡ l
    → (r' : Running) × (run receive (rounds (length l) t stops) r ≡ finished r')
      × (r'.sent ≡ r.sent ++ l)
      × (contents (ring r'.header) ≡ [])
      × (r'.queue.step.stopping ≡ true)
unfolding run Step.stop
run_lem receive t stops [] c r halts o holds =
    let (s', e, same) =
      get_next-stop stops t [] (scene c r) halts o.calm
        (omega (arith, length-contents (ring r.header), ap length holds)) in
    (
      ended r s',
      run-ended receive c r o (stops ∷ t ∷ []) [] s' e,
      sym (append-nil r.sent),
      ap contents same ∙ holds,
      refl,
    )
run_lem receive t stops (x ∷ l) c r halts o holds =
    let (s', e, tried, going) =
      get_next-some t [] (scene c r) o.calm
        (omega (arith, length-contents (ring r.header), ap length holds)) in
    let split : s'.message ∷ contents (ring s'.header) ≡ x ∷ l = sym (tried.taken refl) ∙ holds in
    let (r', done, sent, empty, halted) =
      run_lem receive t stops l s'.consumer (relayed receive r s') halts
        (record {
          attached = refl;
          going = o.going;
          calm = record {
            valid = tried.valid;
            knows = tried.knows;
            early = omega (arith, tried.published, o.calm.early);
            going = going;
          };
        })
        (cons_tail split) in
    (
      r',
      run-relayed receive c r o (t ∷ []) (rounds (length l) t stops) s' e ∙ done,
      sent ∙ append_assoc r.sent (s'.message ∷ []) l ∙ ap (λ y. r.sent ++ y ∷ l) (cons_head split),
      empty,
      halted,
    )
