-- ===== src/Queue/Setup.antt =====
-- How a queue starts: what the constructor of src/HighQueue/details/HQHeader.cpp leaves, and what a
-- new producer and a new consumer make of it.
use hsqueue.Base.{
  ℕ, zero, suc, ◌-◌, ◌≤◌, ◌<◌, ◌≡◌, refl, ap, Bool, true, List, [], ◌∷◌, arith, ok, err, length,
  get_or, tabulate, ◌%◌, second_consumer, allocation_failed,
}
use hsqueue.Message.{Message, blank, attach}
use hsqueue.Memory.BlockPool.{BlockPool, allocate, try_allocate}
use hsqueue.Memory.BlockPool.FreeList.{Chain, Chain-root}
use hsqueue.Queue.Header.{
  Header, Entry, empty, Parameters, blank_entry, allocate_internal_messages, make_header,
  new_header,
}
use hsqueue.Queue.Producer.{make_producer}
use hsqueue.Queue.Consumer.{Consumer, make_consumer, new_consumer}
use hsqueue.Queue.Window.{ring, contents}
use hsqueue.Queue.Fifo.{IsReady, System}

pub record Fresh (n : ℕ) (es : List Entry) : Type 0 where
  pub sized : length es ≡ n
  pub empties : (i : ℕ) → (get_or es i blank_entry).status ≡ empty

-- A pool with a free block hands it out.
pub allocate-Chain :
    (pool : BlockPool) (m : Message) (o : ℕ) (os : List ℕ)
    → Chain pool.links pool.root_offset (o ∷ os)
    → (allocate pool m
        ≡ ok (
          record pool { root_offset = pool.links pool.root_offset },
          attach m pool.base pool.block_size o 0,
        ))
      × Chain pool.links (pool.links pool.root_offset) os
unfolding allocate try_allocate
allocate-Chain pool m o os c =
    (cc (c.0, handed), Chain-root pool.links _ _ os (ap pool.links c.0) c.2)
  where
    handed :
        allocate pool m
        ≡ ok (
          record pool { root_offset = pool.links pool.root_offset },
          attach m pool.base pool.block_size pool.root_offset 0,
        )
    handed = ground (arith, c.0, c.1)

-- A pool without a free block throws.
pub allocate_none :
    (pool : BlockPool)
    → Chain pool.links pool.root_offset []
    → allocate pool blank ≡ err allocation_failed
unfolding allocate try_allocate
allocate_none pool c = ground (arith, c)

-- The entries of a new queue are as many as asked for, and empty, if the pool has as many free
-- blocks.
pub allocate_internal_messages-Fresh :
    (n : ℕ) (pool : BlockPool) (os : List ℕ)
    → Chain pool.links pool.root_offset os
    → n ≤ length os
    → (r : BlockPool × List Entry) × (allocate_internal_messages n pool ≡ ok r) × Fresh n r.1
unfolding allocate_internal_messages
allocate_internal_messages-Fresh zero pool os c enough =
    ((pool, []), refl, record { sized = refl; empties = λ i. refl })
allocate_internal_messages-Fresh (suc n) pool [] c enough = absurd (omega (arith, enough))
allocate_internal_messages-Fresh (suc n) pool (o ∷ os) c enough =
    let (given, c') = allocate-Chain pool blank o os c in
    let (r, made, fresh) =
      allocate_internal_messages-Fresh n (record pool { root_offset = pool.links pool.root_offset })
        os c' (omega (arith, enough)) in
    (
      (r.0, record { message = attach blank pool.base pool.block_size o 0; status = empty } ∷ r.1),
      rw (given, made),
      record { sized = ap suc fresh.sized; empties = empties_cons _ r.1 fresh.empties },
    )
  where
    empties_cons :
        (m' : Message) (es : List Entry)
        → ((i : ℕ) → (get_or es i blank_entry).status ≡ empty)
        → (i : ℕ)
        → (get_or (record { message = m'; status = empty } ∷ es) i blank_entry).status ≡ empty
    empties_cons m' es h zero = refl
    empties_cons m' es h (suc i) = h i

-- A queue with a producer and its consumer, as they start.
pub record Started (parameters : Parameters) (σ : System) : Type 0 where
  pub ready : IsReady σ
  pub nothing_yet : contents (ring σ.header) ≡ []
  pub count : σ.header.entry_count ≡ parameters.entry_count
  pub one_consumer : make_consumer σ.header ≡ err second_consumer

pub new_header-Started :
    (name : List ℕ) (parameters : Parameters) (es : List Entry) (solo : Bool) (discards : ℕ)
    → 0 < parameters.entry_count
    → Fresh parameters.entry_count es
    → let (p, h) = make_producer solo discards (new_header name parameters es) in
      Started parameters (record {
        producer = p;
        consumer = new_consumer h;
        header = record h { consumer_present = true };
      })
unfolding make_producer contents make_consumer
new_header-Started name parameters es solo discards some fresh = record {
  ready = record {
    valid = record {
      some_entries = some;
      sized = fresh.sized;
      ordered = omega arith;
      bounded = omega arith;
      no_skip = λ i e. cc (fresh.empties (i % parameters.entry_count), e);
      ready = λ i lo hi. absurd (omega (arith, lo, hi));
    };
    producer_knows = record { same_count = refl; within = omega arith };
    consumer_knows = omega arith;
    going = refl;
  };
  nothing_yet =
      let e : parameters.entry_count - parameters.entry_count ≡ 0 = omega arith in
      ap (tabulate _ parameters.entry_count) e;
  count = refl;
  one_consumer = refl;
}

-- A header is made if the pool has a free block for each entry; a producer and the consumer can then
-- be made, they and the queue are ready, with nothing in it, and there can be no second consumer.
pub make_header-Started :
    (name : List ℕ) (parameters : Parameters) (pool : BlockPool) (os : List ℕ) (solo : Bool)
    (discards : ℕ)
    → Chain pool.links pool.root_offset os
    → parameters.entry_count ≤ length os
    → 0 < parameters.entry_count
    → (pool' : BlockPool) × (h : Header) × (c : Consumer) × (h' : Header) × (make_header name
          parameters pool
        ≡ ok (pool', h))
      × (make_consumer (make_producer solo discards h).1 ≡ ok (c, h'))
      × Started parameters
          (record { producer = (make_producer solo discards h).0; consumer = c; header = h' })
unfolding make_header make_producer make_consumer
make_header-Started name parameters pool os solo discards c enough some =
    let (r, made, fresh) =
      allocate_internal_messages-Fresh parameters.entry_count pool os c enough in
    (
      r.0,
      new_header name parameters r.1,
      new_consumer (make_producer solo discards (new_header name parameters r.1)).1,
      record ((make_producer solo discards (new_header name parameters r.1)).1) {
        consumer_present = true;
      },
      rw made,
      refl,
      new_header-Started name parameters r.1 solo discards some fresh,
    )
