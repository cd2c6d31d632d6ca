-- ===== src/Queue/Interleaving/Invariant.antt =====
-- In every state that the threads of src/HighQueue/Producer.cpp and Consumer.cpp can reach they agree on
-- the queue.
use hsqueue.Base.{
  update, ℕ, ◌+◌, ◌<◌, ◌≡◌, refl, sym, List, [], ◌∷◌, Option, none, some, ltb, add64, w64, arith,
  length, subst, Bool-cases, inl, inr, if_of_true, if_of_false,
}
use hsqueue.Message.{Message, move_to}
use hsqueue.Queue.Header.{Status, filled, empty, skip}
use hsqueue.Queue.Interleaving.{
  ProducerPlace, outside, leaving, wanting, holding, allowed, written, ConsumerPlace, resting,
  looking, seen, moved, System, entry, place, look, write_entry, produce_at, peek_at, take_entry,
  look_for, consume_at, call_publish, call_get, Move, publish, produce, peek, get, consume, step,
  next, run,
}
use hsqueue.Queue.Interleaving.Order.{ProducerAgrees, ConsumerAgrees, Agrees}
use hsqueue.Queue.Interleaving.Moves.{
  Moved, call_publish-Moved, relock, relimit, store-Moved, write-Moved, not_both, fresh_limit,
}
use hsqueue.Queue.Interleaving.Takes.{consumer-Moved, take-Moved, advance-Moved}

abbrev AllSome {ℓ κ} : {A : Type ℓ} → (A → Type κ) → Option A → Type κ
AllSome P none = Unit
AllSome P (some a) = P a

module _ {s : System} {head tail : ℕ} (a : Agrees s head tail)
    (room : s.publish_position + s.entry_count + 2 < w64) where
  acquire-Moved :
      (i : ℕ) (m : Message) (lock : Option ℕ)
      → s.lock ≡ lock
      → AllSome (Moved s) (elim lock [
        | none ↦ some (place i (holding m) (record s { lock = some i }))
        | some _ ↦ none
      ])
  acquire-Moved i m none e =
      relock a room i (holding m) (some i) (λ j _ l. cc (e, l)) (a.unlocked e) (refl, a.unlocked e)
  acquire-Moved i m (some j) e = tt

  look-Moved : (i : ℕ) (m : Message) → ProducerAgrees (holding m) i s tail → Moved s (look i m s)
  look-Moved i m (mine, t) = elim (Bool-cases (ltb s.publish_position (s.limits i))) [
    | inl below ↦ subst (Moved s) (sym (if_of_true _ _ below)) (
        relock a room i (allowed m s.publish_position) s.lock (λ k. not_both a room i k mine) t
          (mine, t, refl, ground (arith, below, a.limit i)))
    | inr stale ↦
        subst (Moved s) (sym (if_of_false _ _ stale))
          (elim (Bool-cases (ltb s.publish_position (add64 s.read_position s.entry_count))) [
            | inl below ↦ subst (Moved s) (sym (if_of_true _ _ below)) (
                again (
                  relock (relimit a room i) room i (allowed m s.publish_position) s.lock
                    (λ k. not_both a room i k mine) t
                    (mine, t, refl, ground (arith, below, fresh_limit a room))))
            | inr full ↦ subst (Moved s) (sym (if_of_false _ _ full)) (
                again (
                  relock (relimit a room i) room i (wanting m) none (λ k. not_both a room i k mine)
                    t tt))
          ])
  ]
    where
      again :
          {x : System}
          → Moved (record s { limits = update s.limits i (add64 s.read_position s.entry_count) }) x
          → Moved s x
      again r = record {
        head = r.head;
        tail = r.tail;
        agrees = r.agrees;
        near = r.near;
        same_count = r.same_count;
      }

  write_entry-Moved :
      (status : Status) (i : ℕ) (m : Message) (p : ℕ)
      → (entry s p).status ≡ status
      → ProducerAgrees (allowed m p) i s tail
      → Moved s (write_entry status i m p s)
  unfolding move_to
  write_entry-Moved skip i m p e self = absurd (a.valid.no_skip p e)
  write_entry-Moved filled i m p e self = write-Moved a room i m p _ refl self
  write_entry-Moved empty i m p e self = write-Moved a room i m p _ refl self

  produce_at-Moved :
      (p : ProducerPlace) (i : ℕ) → ProducerAgrees p i s tail → AllSome (Moved s) (produce_at p i s)
  unfolding produce_at
  produce_at-Moved outside i self = tt
  produce_at-Moved (wanting m) i self = acquire-Moved i m s.lock refl
  produce_at-Moved (holding m) i self = look-Moved i m self
  produce_at-Moved (allowed m p) i self = write_entry-Moved _ i m p refl self
  produce_at-Moved (written none p) i self = store-Moved a room i p self
  produce_at-Moved (written (some m) p) i self = absurd self
  produce_at-Moved leaving i (mine, t) =
      relock a room i outside none (λ k. not_both a room i k mine) t tt

  peek_at-Moved : (p : ProducerPlace) (i : ℕ) → AllSome (Moved s) (peek_at p i s)
  peek_at-Moved (wanting m) i = elim (Bool-cases (ltb s.publish_position (s.limits i))) [
    | inl below ↦
        subst (AllSome (Moved s)) (sym (if_of_true _ _ below))
          (record { head = head; tail = tail; agrees = a; near = omega arith; same_count = refl })
    | inr stale ↦ subst (AllSome (Moved s)) (sym (if_of_false _ _ stale)) (record {
      head = head;
      tail = tail;
      agrees = relimit a room i;
      near = omega arith;
      same_count = refl;
    })
  ]
  peek_at-Moved _ i = tt

  look_for-Moved : (m : Message) → head ≡ s.read_position → Moved s (look_for m s)
  look_for-Moved m h = elim (Bool-cases (ltb s.read_position s.cached_publish_position)) [
    | inl known ↦ subst (Moved s) (sym (if_of_true _ _ known)) (
        consumer-Moved a room (seen m s.read_position) s.cached_publish_position a.cached
          (h, refl, ground (arith, known, a.cached)))
    | inr stale ↦
        subst (Moved s) (sym (if_of_false _ _ stale))
          (elim (Bool-cases (ltb s.read_position s.publish_position)) [
            | inl some_left ↦ subst (Moved s) (sym (if_of_true _ _ some_left)) (
                consumer-Moved a room (seen m s.read_position) s.publish_position (omega arith)
                  (h, refl, ground (arith, some_left)))
            | inr nothing ↦
                subst (Moved s) (sym (if_of_false _ _ nothing))
                  (consumer-Moved a room resting s.publish_position (omega arith) h)
          ])
  ]

  take_entry-Moved :
      (status : Status) (m : Message) (p : ℕ)
      → (entry s p).status ≡ status
      → ConsumerAgrees (seen m p) s head
      → Moved s (take_entry status m p s)
  take_entry-Moved filled m p e self = take-Moved a room m p _ e self
  take_entry-Moved empty m p e (h, here, below) =
      absurd (cc (e, a.valid.ready p (omega (arith, h, here)) (omega (arith, below, a.publish_le))))
  take_entry-Moved skip m p e self = absurd (a.valid.no_skip p e)

  consume_at-Moved :
      (c : ConsumerPlace) → ConsumerAgrees c s head → AllSome (Moved s) (consume_at c s)
  unfolding consume_at
  consume_at-Moved resting self = tt
  consume_at-Moved (looking m) self = look_for-Moved m self
  consume_at-Moved (seen m p) self = take_entry-Moved _ m p refl self
  consume_at-Moved (moved none p) self = advance-Moved a room p self
  consume_at-Moved (moved (some m) p) self = absurd self

  call_publish_at :
      (p : ProducerPlace) (i : ℕ) (m : Message) → AllSome (Moved s) (call_publish p i m s)
  call_publish_at outside i m = call_publish-Moved a room i m
  call_publish_at _ i m = tt

  call_get_at :
      (c : ConsumerPlace) (m : Message)
      → ConsumerAgrees c s head
      → AllSome (Moved s) (call_get c m s)
  call_get_at resting m self =
      consumer-Moved a room (looking m) s.cached_publish_position a.cached self
  call_get_at _ m self = tt

  step-Moved : (x : Move) → AllSome (Moved s) (step x s)
  step-Moved (publish i m) = call_publish_at (s.producers i) i m
  step-Moved (produce i) = produce_at-Moved (s.producers i) i (a.producer i)
  step-Moved (peek i) = peek_at-Moved (s.producers i) i
  step-Moved (get m) = call_get_at s.consumer m a.consumer
  step-Moved consume = consume_at-Moved s.consumer a.consumer

  next-Moved : (o : Option System) → AllSome (Moved s) o → Moved s (next o s)
  next-Moved none h = record {
    head = head;
    tail = tail;
    agrees = a;
    near = omega arith;
    same_count = refl;
  }
  next-Moved (some s') h = h

pub run-Agrees :
    (xs : List Move) (s : System) {head tail : ℕ}
    → Agrees s head tail
    → s.publish_position + s.entry_count + 2 + length xs < w64
    → (head' : ℕ) × (tail' : ℕ) × Agrees (run xs s) head' tail'
unfolding run
run-Agrees [] s {head} {tail} a room = (head, tail, a)
run-Agrees (x ∷ xs) s a room =
    let r = next-Moved a (omega arith) (step x s) (step-Moved a (omega arith) x) in
    run-Agrees xs (next (step x s) s) r.agrees (omega (arith, r.near, r.same_count))
