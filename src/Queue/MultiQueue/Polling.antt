-- ===== src/Queue/MultiQueue/Polling.antt =====
-- `tryGetNext` of src/HighQueue/MultiQueueConsumer.cpp goes round the queues.
use hsqueue.Base.{
  ℕ, zero, suc, ◌+◌, ◌%◌, ◌≡◌, refl, sym, ◌∙◌, subst, Bool, true, false, List, [], ◌∷◌, Option,
  none, some, get_elem?, length, if◌then◌else◌, All, if_of_true, if_of_false,
}
use hsqueue.Message.{Message}
use hsqueue.Queue.MultiQueue.{Source, MultiQueue, ask, ask_from, multi_try_get_next}
use hsqueue.Queue.MultiQueue.Round.{
  IsCalm, view, take_first, look_at, poll_from, Answers, Polled, ask-Polled,
}

-- Where nothing is found, the lists stay as they are.
take_first-none :
    (queues : List (List Message)) (at : ℕ) (q : Option (List Message))
    → (take_first queues at q).0 ≡ none
    → (take_first queues at q).1 ≡ queues
take_first-none queues at none e = refl
take_first-none queues at (some []) e = refl
take_first-none queues at (some (x ∷ xs)) e = cc e

-- One turn, and those after it.
module _ (m : Message) (p on : Option Message × List (List Message))
    (a next : Bool × List Source × Message) (asked : Polled p m a) where
  abbrev go_on : Option Message → Option Message × List (List Message)
  go_on o = elim o [ none ↦ on | some x ↦ p ]

  turn-Polled :
      (o : Option Message)
      → p.0 ≡ o
      → (o ≡ none → a.0 ≡ false → a.2 ≡ m → Polled on m next)
      → Polled (go_on o) m (if a.0 then (true, a.1, a.2) else next)
  turn-Polled none e f =
      let answer = subst (λ o. Answers o m a.0 a.2) e asked.answers in
      subst (Polled on m) (sym (if_of_false _ _ answer.0)) (f refl answer.0 answer.1)
  turn-Polled (some x) e f =
      let answer = subst (λ o. Answers o m a.0 a.2) e asked.answers in
      subst (Polled p m) (sym (if_of_true _ _ answer.0)) (record {
        queues = asked.queues;
        calm = asked.calm;
        answers = subst (λ o. Answers o m true a.2) (sym e) (refl, answer.1);
      })

ask_from-Polled :
    (turns pos size : ℕ) (sources : List Source) (m : Message)
    → All IsCalm sources
    → Polled (poll_from turns pos size (view sources)) m (ask_from turns pos size sources m)
unfolding poll_from
ask_from-Polled zero pos size sources m calm = record {
  queues = refl;
  calm = calm;
  answers = (refl, refl);
}
ask_from-Polled (suc turns) pos size sources m calm =
    turn-Polled m looked (poll_from turns (pos + 1) size (view sources)) a
      (ask_from turns (pos + 1) size a.1 a.2) asked looked.0 refl
      (λ none_there missed same.
        subst
          (λ queues.
            Polled (poll_from turns (pos + 1) size queues) m
              (ask_from turns (pos + 1) size a.1 a.2))
          (asked.queues
            ∙ take_first-none (view sources) (pos % size) (get_elem? (view sources) (pos % size))
                none_there)
          (subst
            (λ m'.
              Polled (poll_from turns (pos + 1) size (view a.1)) m'
                (ask_from turns (pos + 1) size a.1 a.2))
            same (ask_from-Polled turns (pos + 1) size a.1 a.2 asked.calm)))
  where
    looked : Option Message × List (List Message)
    looked = look_at (pos % size) (view sources)

    a : Bool × List Source × Message
    a = ask sources (pos % size) m

    asked : Polled looked m a
    asked = ask-Polled sources (pos % size) m calm

-- `tryGetNext` of several queues does what a poll of plain lists does, from the position on: it finds
-- a message exactly if one of the queues that the poll comes to has one, it takes the oldest of the
-- first that has, the other queues keep theirs, and the queues stay in order; unless it was stopped.
pub multi_try_get_next_lem :
    (q : MultiQueue) (m : Message)
    → q.stopping ≡ false
    → All IsCalm q.sources
    → let r = multi_try_get_next q m in
      Polled
        (poll_from (length q.sources) q.position (length q.sources) (view q.sources))
        m
        (r.0, r.1.sources, r.2)
      × (r.1.position ≡ q.position)
      × (r.1.stopping ≡ false)
unfolding multi_try_get_next
multi_try_get_next_lem q m going calm =
    let n = length q.sources in
    let a = ask_from n q.position n q.sources m in
    subst
      (λ (r : Bool × MultiQueue × Message).
        Polled (poll_from n q.position n (view q.sources)) m (r.0, r.1.sources, r.2)
        × (r.1.position ≡ q.position)
        × (r.1.stopping ≡ false))
      (sym (if_of_false _ _ going)) (ask_from-Polled n q.position n q.sources m calm, refl, going)
