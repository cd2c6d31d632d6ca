-- ===== src/Queue/MultiQueue/Draining.antt =====
-- src/HighQueue/MultiQueueConsumer.cpp starts every round at the first queue, so a queue is read only
-- once those before it are empty.
use hsqueue.Base.{
  ℕ, zero, suc, ◌+◌, ◌%◌, ◌<◌, ◌≤◌, ◌≡◌, refl, sym, ap, ◌∙◌, subst, Bool, false, List, [], ◌∷◌,
  ◌++◌, Option, none, some, get_elem?, set, length, if◌then◌else◌, replicate, All, arith,
  if_of_true, if_of_false,
}
use hsqueue.Message.{Message}
use hsqueue.Queue.MultiQueue.{Source, MultiQueue, multi_try_get_next}
use hsqueue.Queue.MultiQueue.Round.{IsCalm, view, take_first, look_at, poll_from, Polled}
use hsqueue.Queue.MultiQueue.Polling.{multi_try_get_next_lem}

-- The oldest message of the first list that is not empty, and what is left.
abbrev pub pop : List (List Message) → Option Message × List (List Message)
pop [] = (none, [])
pop ([] ∷ queues) = let (x, left) = pop queues in (x, [] ∷ left)
pop ((x ∷ xs) ∷ queues) = (some x, xs ∷ queues)

abbrev pub concat : List (List Message) → List Message
concat [] = []
concat (q ∷ queues) = q ++ concat queues

abbrev empties : ℕ → List (List Message)
empties n = replicate n []

get_elem?-empties :
    (n : ℕ) (q : List Message) (queues : List (List Message))
    → get_elem? (empties n ++ q ∷ queues) n ≡ some q
get_elem?-empties zero q queues = refl
get_elem?-empties (suc n) q queues = get_elem?-empties n q queues

set-empties :
    (n : ℕ) (q q' : List Message) (queues : List (List Message))
    → set (empties n ++ q ∷ queues) n q' ≡ empties n ++ q' ∷ queues
set-empties zero q q' queues = refl
set-empties (suc n) q q' queues = ap (λ l. [] ∷ l) (set-empties n q q' queues)

empties-cons :
    (n : ℕ) (queues : List (List Message)) → empties n ++ [] ∷ queues ≡ empties (suc n) ++ queues
empties-cons zero queues = refl
empties-cons (suc n) queues = ap (λ l. [] ∷ l) (empties-cons n queues)

abbrev polled_on :
    Option Message × List (List Message)
    → Option Message × List (List Message)
    → Option Message × List (List Message)
polled_on rest looked = elim (looked.0) [ none ↦ rest | some x ↦ looked ]

look_at-empties :
    (n size : ℕ) (q : List Message) (queues : List (List Message))
    → n < size
    → look_at (n % size) (empties n ++ q ∷ queues) ≡ take_first (empties n ++ q ∷ queues) n (some q)
look_at-empties n size q queues lt =
    let e : n % size ≡ n = grind arith in
    ap (λ at. look_at at (empties n ++ q ∷ queues)) e
    ∙ ap (take_first (empties n ++ q ∷ queues) n) (get_elem?-empties n q queues)

-- A poll that starts at the first queue pops; `n` queues were found empty.
poll_from-pop :
    (n size : ℕ) (queues : List (List Message))
    → n + length queues ≡ size
    → poll_from (length queues) n size (empties n ++ queues)
      ≡ ((pop queues).0, empties n ++ (pop queues).1)
unfolding poll_from
poll_from-pop n size [] e = refl
poll_from-pop n size ([] ∷ queues) e =
    ap (polled_on (poll_from (length queues) (n + 1) size (empties n ++ [] ∷ queues)))
      (look_at-empties n size [] queues (omega (arith, e)))
    ∙ ap (λ j. poll_from (length queues) j size (empties n ++ [] ∷ queues)) {y = suc n}
        (omega arith)
    ∙ ap (poll_from (length queues) (suc n) size) (empties-cons n queues)
    ∙ poll_from-pop (suc n) size queues (omega (arith, e))
    ∙ ap (λ l. ((pop queues).0, l)) (sym (empties-cons n (pop queues).1))
poll_from-pop n size ((x ∷ xs) ∷ queues) e =
    ap (polled_on (poll_from (length queues) (n + 1) size (empties n ++ (x ∷ xs) ∷ queues)))
      (look_at-empties n size (x ∷ xs) queues (omega (arith, e)))
    ∙ ap (λ l. (some x, l)) (set-empties n (x ∷ xs) xs queues)

length-view : (sources : List Source) → length (view sources) ≡ length sources
length-view [] = refl
length-view (s ∷ sources) = ap suc (length-view sources)

round-pop :
    (q : MultiQueue)
    → q.position ≡ 0
    → poll_from (length q.sources) q.position (length q.sources) (view q.sources)
      ≡ pop (view q.sources)
round-pop q start =
    ap (λ j. poll_from (length q.sources) j (length q.sources) (view q.sources)) start
    ∙ ap (λ n. poll_from n 0 (length q.sources) (view q.sources)) (sym (length-view q.sources))
    ∙ poll_from-pop 0 (length q.sources) (view q.sources) (omega (arith, length-view q.sources))

-- What popping leaves of all the messages.
abbrev Pops : List (List Message) → Option Message × List (List Message) → Type 0
Pops queues (none, left) = (concat queues ≡ []) × (concat left ≡ [])
Pops queues (some x, left) = concat queues ≡ x ∷ concat left

pop-Pops : (queues : List (List Message)) → Pops queues (pop queues)
pop-Pops [] = (refl, refl)
pop-Pops ([] ∷ queues) = below (pop queues) (pop-Pops queues)
  where
    below :
        (p : Option Message × List (List Message))
        → Pops queues p
        → Pops ([] ∷ queues) (p.0, [] ∷ p.1)
    below (none, left) h = h
    below (some x, left) h = h
pop-Pops ((x ∷ xs) ∷ queues) = refl

-- The messages that `n` calls get, and the queues after the last of them; the first call that finds
-- nothing ends it.
unfoldable pub collect : ℕ → MultiQueue → Message → List Message × MultiQueue
collect zero q m = ([], q)
collect (suc n) q m =
    let r = multi_try_get_next q m in
    let more = collect n r.1 r.2 in if r.0 then (r.2 ∷ more.0, more.1) else ([], r.1)

abbrev pub all_of : MultiQueue → List Message
all_of q = concat (view q.sources)

abbrev Collects : ℕ → List Message → List Message × MultiQueue → Type 0
Collects n before r = (r.0 ++ all_of r.1 ≡ before) × (length before ≤ n → all_of r.1 ≡ [])

-- One call, by what the round popped.
collect_step :
    (n : ℕ) (q : MultiQueue) (p : Option Message × List (List Message)) (m : Message)
    (r : Bool × MultiQueue × Message)
    → Pops (view q.sources) p
    → Polled p m (r.0, r.1.sources, r.2)
    → Collects n (all_of r.1) (collect n r.1 r.2)
    → let more = collect n r.1 r.2 in
      Collects (suc n) (all_of q) (if r.0 then (r.2 ∷ more.0, more.1) else ([], r.1))
collect_step n q (none, left) m r pops polled ih =
    subst (Collects (suc n) (all_of q)) (sym (if_of_false _ _ polled.answers.0))
      (ap concat polled.queues ∙ pops.1 ∙ sym pops.0, λ fits. ap concat polled.queues ∙ pops.1)
collect_step n q (some x, left) m r pops polled ih =
    let before : all_of q ≡ x ∷ all_of r.1 = pops ∙ ap (λ l. x ∷ concat l) (sym polled.queues) in
    subst (Collects (suc n) (all_of q)) (sym (if_of_true _ _ polled.answers.0)) (
      ap (λ y. y ∷ ((collect n r.1 r.2).0 ++ all_of (collect n r.1 r.2).1)) polled.answers.1
          ∙ ap (λ l. x ∷ l) ih.0
          ∙ sym before,
      λ fits. ih.1 (omega (arith, fits, ap length before)),
    )

-- Calls of `tryGetNext` that no publish interrupts get all messages of the first queue, then all of
-- the second, and so on: nothing is lost, and a queue is not read before those in front of it are
-- empty. As many calls as there are messages empty them all; if no queue was stopped and each is in
-- order.
pub collect_lem :
    (n : ℕ) (q : MultiQueue) (m : Message)
    → q.stopping ≡ false
    → q.position ≡ 0
    → All IsCalm q.sources
    → ((collect n q m).0 ++ all_of (collect n q m).1 ≡ all_of q)
      × (length (all_of q) ≤ n → all_of (collect n q m).1 ≡ [])
unfolding collect
collect_lem zero q m going start calm = (refl, λ fits. empty_of (all_of q) fits)
  where
    empty_of : (l : List Message) → length l ≤ 0 → l ≡ []
    empty_of [] h = refl
    empty_of (x ∷ xs) h = absurd (omega (arith, h))
collect_lem (suc n) q m going start calm =
    let r = multi_try_get_next q m in
    let h = multi_try_get_next_lem q m going calm in
    collect_step n q (pop (view q.sources)) m r (pop-Pops (view q.sources))
      (subst (λ p. Polled p m (r.0, r.1.sources, r.2)) (round-pop q start) h.0)
      (collect_lem n r.1 r.2 h.2 (h.1 ∙ start) h.0.calm)
