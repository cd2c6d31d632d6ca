-- ===== src/Queue/Interleaving/Moves.antt =====
-- Every access of src/HighQueue/Producer.cpp keeps what the threads agree on.
use hsqueue.Base.{
  update, ℕ, ◌+◌, ◌%◌, ◌≤◌, ◌<◌, ◌≡◌, ◌≢◌, refl, sym, ap, ◌∙◌, [], ◌∷◌, ◌++◌, Option, none, some,
  add64, w64, set, arith, subst,
}
use mathlib.Core.List.{append_assoc}
use hsqueue.Message.{Message}
use hsqueue.Queue.Header.{Entry, filled}
use hsqueue.Queue.Window.{IsValid, contents, put_at-IsValid}
use hsqueue.Queue.Interleaving.{ProducerPlace, leaving, wanting, allowed, written, System, place}
use hsqueue.Queue.Interleaving.Order.{
  ring_of, ProducerAgrees, Agrees, idle, carry, carry_consumer, spread,
}

-- A state after one access: agreed on again, and with at most one position more published.
pub record Moved (s s' : System) : Type 0 where
  pub head : ℕ
  pub tail : ℕ
  pub agrees : Agrees s' head tail
  pub near : s'.publish_position ≤ s.publish_position + 1
  pub same_count : s'.entry_count ≡ s.entry_count

module _ {s : System} {head tail : ℕ} (a : Agrees s head tail)
    (room : s.publish_position + s.entry_count + 2 < w64) where
  -- Nothing that matters changes but the place of one producer.
  same_others :
      (i : ℕ) (p : ProducerPlace) (s' : System)
      → s'.producers ≡ update s.producers i p
      → s'.lock ≡ s.lock
      → s'.publish_position ≡ s.publish_position
      → s'.entry_count ≡ s.entry_count
      → s.read_position ≤ s'.read_position
      → ProducerAgrees p i s' tail
      → (j : ℕ) → ProducerAgrees (s'.producers j) j s' tail
  same_others i p s' e l pub_same n r self j =
      subst (λ f. ProducerAgrees (f j) j s' tail) (sym e)
        (spread s.producers i p s' tail self
          (λ k apart. carry (s.producers k) k s s' tail l pub_same n r (a.producer k)) j)

  pub call_publish-Moved : (i : ℕ) (m : Message) → Moved s (place i (wanting m) s)
  call_publish-Moved i m = record {
    head = head;
    tail = tail;
    agrees = record {
      valid = a.valid;
      history = a.history;
      producer =
          same_others i (wanting m) (place i (wanting m) s) refl refl refl refl (omega arith) tt;
      unlocked = a.unlocked;
      consumer =
          carry_consumer s.consumer s (place i (wanting m) s) head refl (omega arith) a.consumer;
      limit = a.limit;
      cached = a.cached;
      read_le = a.read_le;
      publish_le = a.publish_le;
      tail_le = a.tail_le;
    };
    near = omega arith;
    same_count = refl;
  }

  -- Producer `i` comes to a place where it has the lock, or none has.
  pub relock :
      (i : ℕ) (p : ProducerPlace) (lock : Option ℕ)
      → ((j : ℕ) → i ≢ j → s.lock ≢ some j)
      → tail ≡ s.publish_position
      → ProducerAgrees p i (place i p (record s { lock = lock })) tail
      → Moved s (place i p (record s { lock = lock }))
  relock i p lock free e self = record {
    head = head;
    tail = tail;
    agrees = record {
      valid = a.valid;
      history = a.history;
      producer = spread s.producers i p (place i p (record s { lock = lock })) tail self (λ k apart.
          idle (s.producers k) k s (place i p (record s { lock = lock })) tail tail (free k apart)
            (a.producer k));
      unlocked = λ _. e;
      consumer =
          carry_consumer s.consumer s (place i p (record s { lock = lock })) head refl (omega arith)
            a.consumer;
      limit = a.limit;
      cached = a.cached;
      read_le = a.read_le;
      publish_le = a.publish_le;
      tail_le = a.tail_le;
    };
    near = omega arith;
    same_count = refl;
  }

  pub not_both : (i k : ℕ) → s.lock ≡ some i → i ≢ k → s.lock ≢ some k
  not_both i k mine apart other = apart (ground (arith, mine, other))

  pub fresh_limit : add64 s.read_position s.entry_count ≡ s.read_position + s.entry_count
  fresh_limit = omega (arith, a.read_le, a.valid.ordered, a.tail_le)

  -- A producer reads the limit anew.
  pub relimit :
      (i : ℕ)
      → Agrees
          (record s { limits = update s.limits i (add64 s.read_position s.entry_count) })
          head
          tail
  relimit i = record {
    valid = a.valid;
    history = a.history;
    producer = λ j. carry (s.producers j) j s _ tail refl refl refl (omega arith) (a.producer j);
    unlocked = a.unlocked;
    consumer = carry_consumer s.consumer s _ head refl (omega arith) a.consumer;
    limit = λ j. ground (arith, a.limit j, fresh_limit);
    cached = a.cached;
    read_le = a.read_le;
    publish_le = a.publish_le;
    tail_le = a.tail_le;
  }

  pub store-Moved :
      (i p : ℕ)
      → ProducerAgrees (written none p) i s tail
      → Moved s (place i leaving (record s { publish_position = add64 p 1 }))
  store-Moved i p (mine, e, here) = record {
    head = head;
    tail = tail;
    agrees = record {
      valid = a.valid;
      history = a.history;
      producer =
          spread s.producers i leaving s' tail (mine, omega (arith, e, stored))
            (λ k apart.
              idle (s.producers k) k s s' tail tail (not_both i k mine apart) (a.producer k));
      unlocked = λ _. omega (arith, e, stored);
      consumer = carry_consumer s.consumer s s' head refl (omega (arith, stored)) a.consumer;
      limit = a.limit;
      cached = omega (arith, a.cached, stored);
      read_le = a.read_le;
      publish_le = omega (arith, e, stored);
      tail_le = omega (arith, e, stored);
    };
    near = omega (arith, stored);
    same_count = refl;
  }
    where
      s' : System
      s' = place i leaving (record s { publish_position = add64 p 1 })

      stored : add64 p 1 ≡ s.publish_position + 1
      stored = omega (arith, here)

  -- The producer writes its message where there is room.
  pub write-Moved :
      (i : ℕ) (m : Message) (p : ℕ) (e : Entry)
      → e ≡ record { message = m; status = filled }
      → ProducerAgrees (allowed m p) i s tail
      → Moved s (
          place i (written none p) (record s {
            entries = set s.entries (p % s.entry_count) e;
            published = s.published ++ m ∷ [];
          }))
  write-Moved i m p e loaded (mine, t, here, below) =
      let (v, more) =
        put_at-IsValid e a.valid (omega (arith, t, here, a.read_le))
          (ap (λ (x : Entry). x.status) loaded) in
      let there : p ≡ tail = omega (arith, t, here) in
      record {
        head = head;
        tail = tail + 1;
        agrees = record {
          valid =
              subst
                (λ k. IsValid (record (ring_of s head (tail + 1)) {
                  entries = set s.entries (k % s.entry_count) e;
                }))
                (sym there) v;
          history =
              ap (λ l. l ++ m ∷ []) a.history
              ∙ append_assoc s.got _ _
              ∙ ap (λ l. s.got ++ l)
                  (sym (
                    subst
                      (λ k.
                        contents (record (ring_of s head (tail + 1)) {
                          entries = set s.entries (k % s.entry_count) e;
                        })
                        ≡ contents (ring_of s head tail) ++ m ∷ [])
                      (sym there)
                      (more
                        ∙ ap (λ (x : Entry). contents (ring_of s head tail) ++ x.message ∷ [])
                            loaded)));
          producer =
              spread s.producers i (written none p) s' (tail + 1) (mine, omega (arith, t), here)
                (λ k apart.
                  idle (s.producers k) k s s' tail (tail + 1) (not_both i k mine apart)
                    (a.producer k));
          unlocked = λ none_has. absurd (cc (none_has, mine));
          consumer = carry_consumer s.consumer s s' head refl (omega arith) a.consumer;
          limit = a.limit;
          cached = a.cached;
          read_le = a.read_le;
          publish_le = omega (arith, a.publish_le);
          tail_le = omega (arith, t);
        };
        near = omega arith;
        same_count = refl;
      }
    where
      s' : System
      s' = place i (written none p) (record s {
        entries = set s.entries (p % s.entry_count) e;
        published = s.published ++ m ∷ [];
      })
