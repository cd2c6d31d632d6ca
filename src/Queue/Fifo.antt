-- ===== src/Queue/Fifo.antt =====
-- A producer and the consumer of one queue, called in turns: `Producer::publish` and
-- `Consumer::tryGetNext` against a plain list.
use mathlib.Core.Path.{ap₂}
use hsqueue.Base.{
  ℕ, ◌+◌, ◌<◌, ◌≡◌, refl, sym, ap, ◌∙◌, true, false, List, [], ◌∷◌, ◌++◌, arith, w64, if◌then◌else◌,
  Bool-cases, subst, length, lt→ltb, inl, inr, ◌⊎◌,
}
use hsqueue.Message.{Message}
use hsqueue.Queue.Header.{Header}
use hsqueue.Queue.Producer
use hsqueue.Queue.Producer.{Producer, Tick, Progress, finished, thrown, still_waiting, publish}
use hsqueue.Queue.Consumer
use hsqueue.Queue.Consumer.{Consumer, try_get_next}
use hsqueue.Queue.Window.{ring, contents, IsValid, length-contents}
use hsqueue.Queue.Look
use hsqueue.Queue.Look.{has_room}
use hsqueue.Queue.Round.{Finishes}
use hsqueue.Queue.Publish.{Published, publish_lem}
use hsqueue.Queue.Consume
use hsqueue.Queue.Consume.{Tried, try_get_next_lem}

-- A call, with the message that it is given.
pub data Call : Type 0 where
  put take : Message → Call

-- What a caller sees: the message it is left with, and whether the call found one; or that `publish`
-- did not return.
pub data Seen : Type 0 where
  sent : Seen
  got : Message → Seen
  nothing stuck : Seen

pub record System : Type 0 where
  pub producer : Producer
  pub consumer : Consumer
  pub header : Header

-- A round of a loop in which no other thread does anything.
abbrev pub idle : Tick
idle = record { change = λ h. h; timed_out = false; stop = false }

abbrev pub perform : System → Call → Seen × System
perform σ (put m) =
    let r =
      publish 1 (idle ∷ []) (record { producer = σ.producer; header = σ.header; message = m }) in
    elim r [
      | finished s ↦ (sent, record σ { producer = s.producer; header = s.header })
      | thrown e s ↦ (stuck, record σ { producer = s.producer; header = s.header })
      | still_waiting s ↦ (stuck, record σ { producer = s.producer; header = s.header })
    ]
perform σ (take m) =
    let (found, s) =
      try_get_next (record { consumer = σ.consumer; header = σ.header; message = m }) in
    (
      if found then got s.message else nothing,
      record σ { consumer = s.consumer; header = s.header },
    )

abbrev pub perform_all : System → List Call → List Seen
perform_all σ [] = []
perform_all σ (c ∷ cs) = let (seen, σ') = perform σ c in seen ∷ perform_all σ' cs

-- The same calls on a list of messages.
abbrev pub serve : List Message → List Call → List Seen
serve l [] = []
serve l (put m ∷ cs) = sent ∷ serve (l ++ m ∷ []) cs
serve [] (take m ∷ cs) = nothing ∷ serve [] cs
serve (x ∷ l) (take m ∷ cs) = got x ∷ serve l cs

-- No call puts a message where the list has `n` already.
abbrev pub IsWithin : ℕ → List Message → List Call → Type 0
IsWithin n l [] = Unit
IsWithin n l (put m ∷ cs) = (length l < n) × IsWithin n (l ++ m ∷ []) cs
IsWithin n [] (take m ∷ cs) = IsWithin n [] cs
IsWithin n (x ∷ l) (take m ∷ cs) = IsWithin n l cs

-- A queue that is set up, whose producer is not stopped.
pub record IsReady (σ : System) : Type 0 where
  pub valid : IsValid (ring σ.header)
  pub producer_knows : Look.Knows σ.producer σ.header
  pub consumer_knows : Consume.Knows σ.consumer σ.header
  pub going : σ.producer.stopping ≡ false

record Put (σ : System) (m : Message) (r : Seen × System) : Type 0 where
  ready : IsReady r.1
  seen : r.0 ≡ sent
  appended : contents (ring r.1.header) ≡ contents (ring σ.header) ++ m ∷ []
  next : r.1.header.publish_position ≡ σ.header.publish_position + 1
  count : r.1.header.entry_count ≡ σ.header.entry_count

pub has_room_of_length :
    (h : Header) → IsValid (ring h) → length (contents (ring h)) < h.entry_count → has_room h ≡ true
has_room_of_length h v room = lt→ltb _ _ (omega (arith, length-contents (ring h), room, v.ordered))

perform-put :
    (σ : System) (m : Message)
    → IsReady σ
    → Look.IsEarly σ.header
    → length (contents (ring σ.header)) < σ.header.entry_count
    → Put σ m (perform σ (put m))
perform-put σ m k early free = returned _ called
  where
    room : has_room σ.header ≡ true
    room = has_room_of_length σ.header k.valid free

    scene : Producer.Scene
    scene = record { producer = σ.producer; header = σ.header; message = m }

    called :
        Finishes (Published σ.header m σ.producer.consumer_uses_mutex) (publish 1 (idle ∷ []) scene)
    called =
        publish_lem 0 idle [] scene k.valid k.producer_knows early k.going (ground (arith, room))

    returned :
        (r : Progress Producer.Scene)
        → Finishes (Published σ.header m σ.producer.consumer_uses_mutex) r
        → Put σ m (elim r [
          | finished s ↦ (sent, record σ { producer = s.producer; header = s.header })
          | thrown e s ↦ (stuck, record σ { producer = s.producer; header = s.header })
          | still_waiting s ↦ (stuck, record σ { producer = s.producer; header = s.header })
        ])
    returned (finished s) p = record {
      ready = record {
        valid = p.valid;
        producer_knows = p.knows;
        consumer_knows = omega (arith, p.next, k.consumer_knows);
        going = p.going;
      };
      seen = refl;
      appended = simp room at p.appended;
      next = p.next;
      count = p.count;
    }
    returned (thrown e s) p = absurd p
    returned (still_waiting s) p = absurd p

abbrev take_scene : System → Message → Consumer.Scene
take_scene σ m = record { consumer = σ.consumer; header = σ.header; message = m }

-- What a call of `tryGetNext` shows, in terms of the contents before it.
record Took (σ : System) (m : Message) (r : Seen × System) : Type 0 where
  ready : IsReady r.1
  seen :
      ((r.0 ≡ nothing) × (contents (ring σ.header) ≡ []) × (contents (ring r.1.header) ≡ []))
      ⊎ ((x : Message) × (r.0 ≡ got x)
          × (contents (ring σ.header) ≡ x ∷ contents (ring r.1.header)))
  same_end : r.1.header.publish_position ≡ σ.header.publish_position
  count : r.1.header.entry_count ≡ σ.header.entry_count

nothing_left : (l : List Message) → length l ≡ 0 → l ≡ []
nothing_left [] e = refl
nothing_left (x ∷ l) e = absurd (omega (arith, e))

perform-take :
    (σ : System) (m : Message)
    → IsReady σ
    → σ.header.publish_position + 1 < w64
    → Took σ m (perform σ (take m))
perform-take σ m k early = record {
  ready = record {
    valid = tried.valid;
    producer_knows = record {
      same_count = k.producer_knows.same_count ∙ sym tried.count;
      within = omega (arith, k.producer_knows.within, tried.forward, tried.count);
    };
    consumer_knows = tried.knows;
    going = k.going;
  };
  seen = elim (Bool-cases (try_get_next (take_scene σ m)).0) [
    | inl found ↦ inr (_, simp found refl, tried.taken found)
    | inr missing ↦
        let none = without missing in
        inl (
          simp missing refl,
          none,
          ap (λ (h : Header). contents (ring h)) (tried.nothing missing).0 ∙ none,
        )
  ];
  same_end = tried.published;
  count = tried.count;
}
  where
    tried : Tried (take_scene σ m) (try_get_next (take_scene σ m))
    tried = try_get_next_lem (take_scene σ m) k.valid k.consumer_knows early

    without : (try_get_next (take_scene σ m)).0 ≡ false → contents (ring σ.header) ≡ []
    without missing =
        nothing_left _ (ground (arith, length-contents (ring σ.header), missing, tried.found))

module _ {σ : System} {m : Message} {r : Seen × System} (t : Took σ m r) (cs : List Call) where
  took-IsWithin :
      (n : ℕ)
      → IsWithin n (contents (ring σ.header)) (take m ∷ cs)
      → IsWithin n (contents (ring r.1.header)) cs
  took-IsWithin n fits = elim t.seen [
    | inl (seen, none, after) ↦
        subst (λ l. IsWithin n l cs) (sym after) (subst (λ l. IsWithin n l (take m ∷ cs)) none fits)
    | inr (x, seen, some) ↦ subst (λ l. IsWithin n l (take m ∷ cs)) some fits
  ]

  took-serve :
      serve (contents (ring σ.header)) (take m ∷ cs) ≡ r.0 ∷ serve (contents (ring r.1.header)) cs
  took-serve = elim t.seen [
    | inl (seen, none, after) ↦
        ap (λ l. serve l (take m ∷ cs)) none ∙ ap₂ (λ a l. a ∷ serve l cs) (sym seen) (sym after)
    | inr (x, seen, some) ↦
        ap (λ l. serve l (take m ∷ cs)) some
        ∙ ap (λ a. a ∷ serve (contents (ring r.1.header)) cs) (sym seen)
  ]

-- Any sequence of calls of `publish` and `tryGetNext` on a queue, none of which publishes to a full
-- queue, shows the callers what the same calls on a plain list do: `publish` always returns, messages
-- come out once each, in the order they went in, and `tryGetNext` finds none exactly if none is left.
-- The positions must be far enough from 2^64 for the calls.
pub perform_all_lem :
    (σ : System) (cs : List Call)
    → IsReady σ
    → σ.header.publish_position + σ.header.entry_count + length cs + 1 < w64
    → IsWithin σ.header.entry_count (contents (ring σ.header)) cs
    → perform_all σ cs ≡ serve (contents (ring σ.header)) cs
perform_all_lem σ [] k early fits = refl
perform_all_lem σ (put m ∷ cs) k early fits = ap₂ ◌∷◌ p.seen (
    perform_all_lem σ' cs p.ready (omega (arith, early, p.next, p.count)) (
      subst (λ n. IsWithin n (contents (ring σ'.header)) cs) (sym p.count)
        (subst (λ l. IsWithin σ.header.entry_count l cs) (sym p.appended) fits.1))
    ∙ ap (λ l. serve l cs) p.appended)
  where
    p : Put σ m (perform σ (put m))
    p = perform-put σ m k (omega (arith, early)) fits.0

    σ' : System
    σ' = (perform σ (put m)).1
perform_all_lem σ (take m ∷ cs) k early fits =
    ap (λ l. (perform σ (take m)).0 ∷ l)
      (perform_all_lem (perform σ (take m)).1 cs t.ready (omega (arith, early, t.same_end, t.count))
        (subst (λ n. IsWithin n (contents (ring (perform σ (take m)).1.header)) cs) (sym t.count)
          (took-IsWithin t cs σ.header.entry_count fits)))
    ∙ sym (took-serve t cs)
  where
    t : Took σ m (perform σ (take m))
    t = perform-take σ m k (omega (arith, early))
