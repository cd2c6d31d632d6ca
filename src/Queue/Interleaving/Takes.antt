-- ===== src/Queue/Interleaving/Takes.antt =====
-- Every access of src/HighQueue/Consumer.cpp keeps what the threads agree on.
use hsqueue.Base.{
  ℕ, ◌+◌, ◌%◌, ◌≤◌, ◌<◌, ◌≡◌, refl, sym, ap, ◌∙◌, [], ◌∷◌, ◌++◌, none, add64, w64, set, arith,
  subst,
}
use mathlib.Core.List.{append_assoc}
use hsqueue.Message.{Message}
use hsqueue.Queue.Header.{Entry, filled}
use hsqueue.Queue.Window.{IsValid, contents, take_at-IsValid}
use hsqueue.Queue.Interleaving.{ConsumerPlace, resting, seen, moved, System, entry}
use hsqueue.Queue.Interleaving.Order.{ring_of, ConsumerAgrees, Agrees, carry}
use hsqueue.Queue.Interleaving.Moves.{Moved}

module _ {s : System} {head tail : ℕ} (a : Agrees s head tail)
    (room : s.publish_position + s.entry_count + 2 < w64) where
  -- The consumer changes place.
  pub consumer-Moved :
      (c : ConsumerPlace) (cached : ℕ)
      → cached ≤ s.publish_position
      → ConsumerAgrees c (record s { cached_publish_position = cached; consumer = c }) head
      → Moved s (record s { cached_publish_position = cached; consumer = c })
  consumer-Moved c cached small here = record {
    head = head;
    tail = tail;
    agrees = record {
      valid = a.valid;
      history = a.history;
      producer = λ j.
          carry (s.producers j) j s (record s { cached_publish_position = cached; consumer = c })
            tail refl refl refl (omega arith) (a.producer j);
      unlocked = a.unlocked;
      consumer = here;
      limit = a.limit;
      cached = small;
      read_le = a.read_le;
      publish_le = a.publish_le;
      tail_le = a.tail_le;
    };
    near = omega arith;
    same_count = refl;
  }

  -- The consumer takes the message of an entry.
  pub take-Moved :
      (m : Message) (p : ℕ) (e : Entry)
      → e.status ≡ filled
      → ConsumerAgrees (seen m p) s head
      → Moved s (record s {
        entries = set s.entries (p % s.entry_count) e;
        consumer = moved none p;
        got = s.got ++ (entry s p).message ∷ [];
      })
  take-Moved m p e full (h, here, below) =
      let (v, more) = take_at-IsValid e a.valid (omega (arith, h, here, a.publish_le)) full in
      let there : p ≡ head = omega (arith, h, here) in
      record {
        head = head + 1;
        tail = tail;
        agrees = record {
          valid =
              subst
                (λ k. IsValid (record (ring_of s (head + 1) tail) {
                  entries = set s.entries (k % s.entry_count) e;
                }))
                (sym there) v;
          history =
              a.history
              ∙ ap (λ l. s.got ++ l)
                  (subst
                    (λ k.
                      contents (ring_of s head tail)
                      ≡ (entry s k).message
                        ∷ contents (record (ring_of s (head + 1) tail) {
                          entries = set s.entries (k % s.entry_count) e;
                        }))
                    (sym there) more)
              ∙ sym (append_assoc s.got ((entry s p).message ∷ []) _);
          producer =
              λ j. carry (s.producers j) j s _ tail refl refl refl (omega arith) (a.producer j);
          unlocked = a.unlocked;
          consumer = (omega (arith, h), here, below);
          limit = a.limit;
          cached = a.cached;
          read_le = omega (arith, a.read_le);
          publish_le = a.publish_le;
          tail_le = a.tail_le;
        };
        near = omega arith;
        same_count = refl;
      }

  pub advance-Moved :
      (p : ℕ)
      → ConsumerAgrees (moved none p) s head
      → Moved s (record s { read_position = add64 s.read_position 1; consumer = resting })
  advance-Moved p (h, here, below) = record {
    head = head;
    tail = tail;
    agrees = record {
      valid = a.valid;
      history = a.history;
      producer = λ j.
          carry (s.producers j) j s s' tail refl refl refl (omega (arith, stepped)) (a.producer j);
      unlocked = a.unlocked;
      consumer = omega (arith, h, stepped);
      limit = λ j. omega (arith, a.limit j, stepped);
      cached = a.cached;
      read_le = omega (arith, h, stepped);
      publish_le = a.publish_le;
      tail_le = a.tail_le;
    };
    near = omega arith;
    same_count = refl;
  }
    where
      s' : System
      s' = record s { read_position = add64 s.read_position 1; consumer = resting }

      stepped : add64 s.read_position 1 ≡ s.read_position + 1
      stepped = omega (arith, here, below)
