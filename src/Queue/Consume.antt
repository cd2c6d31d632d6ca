-- ===== src/Queue/Consume.antt =====
-- What `Consumer::tryGetNext` and `getNext` do to the contents of the queue.
use hsqueue.Base.{
  ℕ, suc, ◌+◌, ◌≤◌, ◌<◌, ◌≡◌, refl, sym, ap, ◌∙◌, Bool, true, false, ◌&&◌, ◌∷◌, arith, ltb, leb,
  if◌then◌else◌, add64, w64, subst, if_of_false, lt→ltb, dec_lt,
}
use hsqueue.Message.{move_to}
use hsqueue.Queue.Header.{Header, Entry, filled, entry_at, set_entry}
use hsqueue.Queue.Consumer.{Consumer, Scene, increment_read_position, try_loop, try_get_next}
use hsqueue.Queue.Window.{Ring, ring, contents, IsValid, take_at, take_at-IsValid}

-- The consumer's copy of the publish position never promises messages that are not there.
abbrev pub Knows : Consumer → Header → Type 0
Knows c h = c.cached_publish_position ≤ h.publish_position

-- What `tryGetNext` leaves: nothing but counters and the copied position change where the queue is
-- empty; else the oldest message is taken, and the entry keeps the receiver's old block.
pub record Tried (s : Scene) (r : Bool × Scene) : Type 0 where
  pub valid : IsValid (ring r.1.header)
  pub knows : Knows r.1.consumer r.1.header
  pub found : r.0 ≡ ltb s.header.read_position s.header.publish_position
  pub taken : r.0 ≡ true → contents (ring s.header) ≡ r.1.message ∷ contents (ring r.1.header)
  pub nothing : r.0 ≡ false → (r.1.header ≡ s.header) × (r.1.message ≡ s.message)
  pub published : r.1.header.publish_position ≡ s.header.publish_position
  pub count : r.1.header.entry_count ≡ s.header.entry_count
  pub forward : s.header.read_position ≤ r.1.header.read_position
  pub awake :
      r.0 ≡ true → s.consumer.producer_uses_mutex ≡ true → r.1.header.producer_waiting ≡ false

try_loop-empty :
    (fuel : ℕ) (s : Scene)
    → IsValid (ring s.header)
    → Knows s.consumer s.header
    → s.header.publish_position ≤ s.header.read_position
    → try_loop (suc fuel) s ≡ (
      false,
      record s {
        consumer = record (s.consumer) { cached_publish_position = s.header.publish_position };
      },
    )
unfolding try_loop
try_loop-empty fuel s v k h = ground arith

-- The entry that a take leaves behind.
abbrev left_entry : Scene → Entry
left_entry s = record {
  message = (move_to (entry_at s.header s.header.read_position).message s.message).0;
  status = (entry_at s.header s.header.read_position).status;
}

abbrev taken : Scene → ℕ → Scene
taken s cached = record s {
  consumer = record (s.consumer) {
    cached_publish_position = cached;
    stats = record (s.consumer.stats) { consumed = add64 s.consumer.stats.consumed 1 };
  };
  header =
      increment_read_position s.consumer (set_entry s.header s.header.read_position (left_entry s));
  message = (move_to (entry_at s.header s.header.read_position).message s.message).1;
}

abbrev copied : Scene → ℕ
copied s =
    if leb s.consumer.cached_publish_position s.header.read_position
    then s.header.publish_position
    else s.consumer.cached_publish_position

try_loop-some :
    (fuel : ℕ) (s : Scene)
    → (entry_at s.header s.header.read_position).status ≡ filled
    → s.header.read_position < s.header.publish_position
    → try_loop (suc fuel) s ≡ (true, taken s (copied s))
unfolding try_loop increment_read_position
try_loop-some fuel s full held = if_of_false _ _ going ∙ simp full refl
  where
    going :
        (leb s.consumer.cached_publish_position s.header.read_position
          && leb (copied s) s.header.read_position)
        ≡ false
    going = ground arith

ring-increment_read_position :
    (c : Consumer) (h : Header)
    → h.read_position + 1 < w64
    → ring (increment_read_position c h) ≡ record (ring h) { read_position = h.read_position + 1 }
unfolding increment_read_position
ring-increment_read_position c h early =
    ap (λ k. record (ring h) { read_position = k }) (omega arith)

increment_read_position_wakes :
    (c : Consumer) (h : Header)
    → c.producer_uses_mutex ≡ true
    → (increment_read_position c h).producer_waiting ≡ false
unfolding increment_read_position
increment_read_position_wakes c h e = ground arith

increment_read_position-publish :
    (c : Consumer) (h : Header)
    → (increment_read_position c h).publish_position ≡ h.publish_position
unfolding increment_read_position
increment_read_position-publish c h = refl

copied-Knows : (s : Scene) → Knows s.consumer s.header → copied s ≤ s.header.publish_position
copied-Knows s k = ground arith

-- `tryGetNext` on a valid queue finds a message exactly if one is there. It takes the oldest, and
-- wakes a producer that waits on the mutex; where there is none, header and message stay as they are.
pub try_get_next_lem :
    (s : Scene)
    → IsValid (ring s.header)
    → Knows s.consumer s.header
    → s.header.publish_position + 1 < w64
    → Tried s (try_get_next s)
unfolding try_get_next move_to
try_get_next_lem s v k early = elim (dec_lt s.header.read_position s.header.publish_position) [
  | yes held ↦
      subst (Tried s) (sym (try_loop-some _ tried (v.ready _ (omega arith) held) held)) (full held)
  | no none ↦
      subst (Tried s) (sym (try_loop-empty _ tried v k (omega arith))) (vacant (omega arith))
]
  where
    tried : Scene
    tried = record s {
      consumer = record (s.consumer) {
        stats = record (s.consumer.stats) { trys = add64 s.consumer.stats.trys 1 };
      };
    }

    vacant :
        s.header.publish_position ≤ s.header.read_position
        → Tried s (
          false,
          record tried {
            consumer = record (tried.consumer) {
              cached_publish_position = s.header.publish_position;
            };
          },
        )
    vacant none = record {
      valid = v;
      knows = omega arith;
      found = ground arith;
      taken = λ e. absurd (cc e);
      nothing = λ e. (refl, refl);
      published = refl;
      count = refl;
      forward = omega arith;
      awake = λ e. absurd (cc e);
    }

    there : ring (taken tried (copied tried)).header ≡ take_at (ring s.header) (left_entry tried)
    there = ring-increment_read_position _ _ (omega (arith, v.ordered))

    full :
        s.header.read_position < s.header.publish_position
        → Tried s (true, taken tried (copied tried))
    full held =
        let take = take_at-IsValid (left_entry tried) v held (v.ready _ (omega arith) held) in
        record {
          valid = subst IsValid (sym there) take.0;
          knows = omega (
            arith,
            copied-Knows tried k,
            increment_read_position-publish tried.consumer
                (set_entry s.header s.header.read_position (left_entry tried)),
          );
          found = sym (lt→ltb _ _ held);
          taken = λ e.
              take.1
              ∙ ap (λ r. (entry_at s.header s.header.read_position).message ∷ contents r)
                  (sym there);
          nothing = λ e. absurd (cc e);
          published = increment_read_position-publish _ _;
          count = ap (λ (q : Ring). q.entry_count) there;
          forward = omega (arith, ap (λ (q : Ring). q.read_position) there);
          awake = λ e uses. increment_read_position_wakes _ _ uses;
        }
