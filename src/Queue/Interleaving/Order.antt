-- ===== src/Queue/Interleaving/Order.antt =====
-- What the threads of src/HighQueue/Producer.cpp and Consumer.cpp agree on between any two accesses: the
-- queue, in which a message is from when it is written until it is taken.
use hsqueue.Base.{
  update, ℕ, ◌+◌, ◌≤◌, ◌<◌, ◌≡◌, ◌≢◌, sym, ◌∙◌, ◌++◌, none, some, ◌==◌, arith, subst, Bool-cases,
  inl, inr, if_of_true, if_of_false,
}
use hsqueue.Queue.Window.{Ring, IsValid, contents}
use hsqueue.Queue.Interleaving.{
  ProducerPlace, outside, leaving, wanting, holding, allowed, written, ConsumerPlace, resting,
  looking, seen, moved, System,
}

-- The ring from position `head` to `tail`.
abbrev pub ring_of : System → ℕ → ℕ → Ring
ring_of s head tail = record {
  entries = s.entries;
  entry_count = s.entry_count;
  read_position = head;
  publish_position = tail;
}

abbrev pub ProducerAgrees : ProducerPlace → ℕ → System → ℕ → Type 0
ProducerAgrees outside i s tail = Unit {0}
ProducerAgrees (wanting m) i s tail = Unit {0}
ProducerAgrees (holding m) i s tail = (s.lock ≡ some i) × (tail ≡ s.publish_position)
ProducerAgrees (allowed m p) i s tail =
    (s.lock ≡ some i)
    × (tail ≡ s.publish_position)
    × (p ≡ s.publish_position)
    × (p < s.read_position + s.entry_count)
ProducerAgrees (written none p) i s tail =
    (s.lock ≡ some i) × (tail ≡ s.publish_position + 1) × (p ≡ s.publish_position)
ProducerAgrees (written (some m) p) i s tail = ⊥
ProducerAgrees leaving i s tail = (s.lock ≡ some i) × (tail ≡ s.publish_position)

abbrev pub ConsumerAgrees : ConsumerPlace → System → ℕ → Type 0
ConsumerAgrees resting s head = head ≡ s.read_position
ConsumerAgrees (looking m) s head = head ≡ s.read_position
ConsumerAgrees (seen m p) s head =
    (head ≡ s.read_position) × (p ≡ s.read_position) × (p < s.publish_position)
ConsumerAgrees (moved none p) s head =
    (head ≡ s.read_position + 1) × (p ≡ s.read_position) × (p < s.publish_position)
ConsumerAgrees (moved (some m) p) s head = ⊥

pub record Agrees (s : System) (head tail : ℕ) : Type 0 where
  pub valid : IsValid (ring_of s head tail)
  pub history : s.published ≡ s.got ++ contents (ring_of s head tail)
  pub producer : (i : ℕ) → ProducerAgrees (s.producers i) i s tail
  pub unlocked : s.lock ≡ none → tail ≡ s.publish_position
  pub consumer : ConsumerAgrees s.consumer s head
  pub limit : (i : ℕ) → s.limits i ≤ s.read_position + s.entry_count
  pub cached : s.cached_publish_position ≤ s.publish_position
  pub read_le : s.read_position ≤ head
  pub publish_le : s.publish_position ≤ tail
  pub tail_le : tail ≤ s.publish_position + 1

-- A producer without the lock agrees, whatever the one with the lock does.
pub idle :
    (p : ProducerPlace) (j : ℕ) (s s' : System) (tail tail' : ℕ)
    → s.lock ≢ some j
    → ProducerAgrees p j s tail
    → ProducerAgrees p j s' tail'
idle outside j s s' t t' free a = tt
idle (wanting m) j s s' t t' free a = tt
idle (holding m) j s s' t t' free a = absurd (free a.0)
idle (allowed m p) j s s' t t' free a = absurd (free a.0)
idle (written none p) j s s' t t' free a = absurd (free a.0)
idle (written (some m) p) j s s' t t' free a = absurd a
idle leaving j s s' t t' free a = absurd (free a.0)

-- What others do to the read position and to members that a producer does not use.
pub carry :
    (p : ProducerPlace) (j : ℕ) (s s' : System) (tail : ℕ)
    → s'.lock ≡ s.lock
    → s'.publish_position ≡ s.publish_position
    → s'.entry_count ≡ s.entry_count
    → s.read_position ≤ s'.read_position
    → ProducerAgrees p j s tail
    → ProducerAgrees p j s' tail
carry outside j s s' t l e n r a = tt
carry (wanting m) j s s' t l e n r a = tt
carry (holding m) j s s' t l e n r (a, b) = (l ∙ a, b ∙ sym e)
carry (allowed m p) j s s' t l e n r (a, b, c, d) =
    (l ∙ a, b ∙ sym e, c ∙ sym e, omega (arith, n, d))
carry (written none p) j s s' t l e n r (a, b, c) = (l ∙ a, omega (arith, b, e), c ∙ sym e)
carry (written (some m) p) j s s' t l e n r a = absurd a
carry leaving j s s' t l e n r (a, b) = (l ∙ a, b ∙ sym e)

pub carry_consumer :
    (c : ConsumerPlace) (s s' : System) (head : ℕ)
    → s'.read_position ≡ s.read_position
    → s.publish_position ≤ s'.publish_position
    → ConsumerAgrees c s head
    → ConsumerAgrees c s' head
carry_consumer resting s s' h e p a = a ∙ sym e
carry_consumer (looking m) s s' h e p a = a ∙ sym e
carry_consumer (seen m k) s s' h e p (a, b, c) = (a ∙ sym e, b ∙ sym e, omega arith)
carry_consumer (moved none k) s s' h e p (a, b, c) = (omega (arith, a, e), b ∙ sym e, omega arith)
carry_consumer (moved (some m) k) s s' h e p a = absurd a

-- One producer comes to another place.
pub spread :
    (producers : ℕ → ProducerPlace) (i : ℕ) (p : ProducerPlace) (s : System) (tail : ℕ)
    → ProducerAgrees p i s tail
    → ((j : ℕ) → i ≢ j → ProducerAgrees (producers j) j s tail)
    → (j : ℕ) → ProducerAgrees (update producers i p j) j s tail
spread producers i p s t self rest j = elim (Bool-cases (i == j)) [
  | inl same ↦
      subst (λ o. ProducerAgrees o j s t) (sym (if_of_true _ _ same))
        (subst (λ k. ProducerAgrees p k s t) (ground (arith, same)) self)
  | inr other ↦
      subst (λ o. ProducerAgrees o j s t) (sym (if_of_false _ _ other))
        (rest j (ground (arith, other)))
]
