-- ===== src/Queue/MultiQueue/Round.antt =====
-- A round of src/HighQueue/MultiQueueConsumer.cpp takes the oldest message of the first queue that has
-- one.
use hsqueue.Base.{
  ℕ, zero, suc, ◌+◌, ◌%◌, ◌<◌, ◌≡◌, refl, sym, ap, ◌∙◌, subst, Bool, true, false, List, [], ◌∷◌,
  Option, none, some, get_elem?, set, length, ltb, w64, map, All, arith, Bool-cases, Option-cases,
  inl, inr,
}
use hsqueue.Message.{Message}
use hsqueue.Queue.Consumer.{Scene, try_get_next}
use hsqueue.Queue.Window.{ring, contents, IsValid, length-contents}
use hsqueue.Queue.Consume.{Knows, Tried, try_get_next_lem}
use hsqueue.Queue.MultiQueue.{Source, ask}

-- The queue that a source reads is in order, and its positions are not about to wrap.
pub record IsCalm (s : Source) : Type 0 where
  pub valid : IsValid (ring s.header)
  pub knows : Knows s.consumer s.header
  pub early : s.header.publish_position + 1 < w64

abbrev pub queue_of : Source → List Message
queue_of s = contents (ring s.header)

-- The messages of each queue.
abbrev pub view : List Source → List (List Message)
view sources = map queue_of sources

-- On plain lists: the oldest message of one queue, if it has one, and what is left.
abbrev pub take_first :
    List (List Message) → ℕ → Option (List Message) → Option Message × List (List Message)
take_first queues at none = (none, queues)
take_first queues at (some []) = (none, queues)
take_first queues at (some (x ∷ xs)) = (some x, set queues at xs)

abbrev pub look_at : ℕ → List (List Message) → Option Message × List (List Message)
look_at at queues = take_first queues at (get_elem? queues at)

-- `turns` queues are looked at from `pos` on, until one has a message.
unfoldable pub poll_from : ℕ → ℕ → ℕ → List (List Message) → Option Message × List (List Message)
poll_from zero pos size queues = (none, queues)
poll_from (suc turns) pos size queues =
    let rest = poll_from turns (pos + 1) size queues in
    let looked = look_at (pos % size) queues in elim (looked.0) [ none ↦ rest | some x ↦ looked ]

-- What the caller sees: whether there is a message, and which message it holds then.
abbrev pub Answers : Option Message → Message → Bool → Message → Type 0
Answers none m found m' = (found ≡ false) × (m' ≡ m)
Answers (some x) m found m' = (found ≡ true) × (m' ≡ x)

-- A round on the sources does what it does on plain lists.
pub record Polled (p : Option Message × List (List Message)) (m : Message)
    (r : Bool × List Source × Message) : Type 0 where
  pub queues : view r.1 ≡ p.1
  pub calm : All IsCalm r.1
  pub answers : Answers p.0 m r.0 r.2

get_elem?-map :
    (sources : List Source) (at : ℕ) (o : Option Source)
    → get_elem? sources at ≡ o
    → get_elem? (view sources) at ≡ elim o [ none ↦ none | some s ↦ some (queue_of s) ]
get_elem?-map [] at o e =
    subst (λ o. none ≡ elim o [ none ↦ none | some s ↦ some (queue_of s) ]) e refl
get_elem?-map (s ∷ sources) zero o e =
    subst (λ o. some (queue_of s) ≡ elim o [ none ↦ none | some s ↦ some (queue_of s) ]) e refl
get_elem?-map (s ∷ sources) (suc at) o e = get_elem?-map sources at o e

view-set :
    (sources : List Source) (at : ℕ) (s : Source)
    → view (set sources at s) ≡ set (view sources) at (queue_of s)
view-set [] at s = refl
view-set (x ∷ sources) zero s = refl
view-set (x ∷ sources) (suc at) s = ap (λ l. queue_of x ∷ l) (view-set sources at s)

set-get_elem? :
    (queues : List (List Message)) (at : ℕ) (q : List Message)
    → get_elem? queues at ≡ some q
    → set queues at q ≡ queues
set-get_elem? [] at q e = refl
set-get_elem? (x ∷ queues) zero q e = cc e
set-get_elem? (x ∷ queues) (suc at) q e = ap (λ l. x ∷ l) (set-get_elem? queues at q e)

All-get_elem? :
    (sources : List Source) (at : ℕ) (s : Source)
    → All IsCalm sources
    → get_elem? sources at ≡ some s
    → IsCalm s
All-get_elem? [] at s h e = cc e
All-get_elem? (x ∷ sources) zero s h e = let same : x ≡ s = cc e in subst IsCalm same h.0
All-get_elem? (x ∷ sources) (suc at) s h e = All-get_elem? sources at s h.1 e

All-set :
    (sources : List Source) (at : ℕ) (s : Source)
    → All IsCalm sources
    → IsCalm s
    → All IsCalm (set sources at s)
All-set [] at s h c = tt
All-set (x ∷ sources) zero s h c = (c, h.1)
All-set (x ∷ sources) (suc at) s h c = (h.0, All-set sources at s h.1 c)

abbrev scene : Source → Message → Scene
scene s m = record { consumer = s.consumer; header = s.header; message = m }

abbrev source : Scene → Source
source s' = record { consumer = s'.consumer; header = s'.header }

ask-some :
    (sources : List Source) (at : ℕ) (m : Message) (s : Source)
    → get_elem? sources at ≡ some s
    → ask sources at m ≡ (
      (try_get_next (scene s m)).0,
      set sources at (source (try_get_next (scene s m)).1),
      (try_get_next (scene s m)).1.message,
    )
ask-some sources at m s e = rw (e, ask)

ask-none :
    (sources : List Source) (at : ℕ) (m : Message)
    → get_elem? sources at ≡ none
    → ask sources at m ≡ (false, sources, m)
ask-none sources at m e = rw (e, ask)

looked-none :
    (sources : List Source) (at : ℕ)
    → get_elem? sources at ≡ none
    → look_at at (view sources) ≡ (none, view sources)
looked-none sources at e = ap (take_first (view sources) at) (get_elem?-map sources at none e)

looked-some :
    (sources : List Source) (at : ℕ) (s : Source) (q : List Message)
    → get_elem? sources at ≡ some s
    → queue_of s ≡ q
    → look_at at (view sources) ≡ take_first (view sources) at (some q)
looked-some sources at s q e f =
    ap (take_first (view sources) at) (get_elem?-map sources at (some s) e ∙ ap some f)

no_messages :
    (s : Source) → ltb s.header.read_position s.header.publish_position ≡ false → queue_of s ≡ []
no_messages s e = empty_of (queue_of s) (length-contents (ring s.header) ∙ ground arith)
  where
    empty_of : (l : List Message) → length l ≡ 0 → l ≡ []
    empty_of [] h = refl
    empty_of (x ∷ xs) h = absurd (omega (arith, h))

module _ (sources : List Source) (at : ℕ) (m : Message) (calm : All IsCalm sources) (s : Source)
    (here : get_elem? sources at ≡ some s) where
  abbrev tried : Bool × Scene
  tried = try_get_next (scene s m)

  abbrev asked : Bool × List Source × Message
  asked = (tried.0, set sources at (source tried.1), tried.1.message)

  tried_lem : Tried (scene s m) tried
  tried_lem =
      let c = All-get_elem? sources at s calm here in
      try_get_next_lem (scene s m) c.valid c.knows c.early

  still-IsCalm : All IsCalm (set sources at (source tried.1))
  still-IsCalm =
      let c = All-get_elem? sources at s calm here in
      All-set sources at (source tried.1) calm (record {
        valid = tried_lem.valid;
        knows = tried_lem.knows;
        early = omega (arith, tried_lem.published, c.early);
      })

  asked-Polled : Polled (look_at at (view sources)) m asked
  asked-Polled = elim (Bool-cases tried.0) [
    | inl found ↦
        subst (λ p. Polled p m asked)
          (sym (looked-some sources at s _ here (tried_lem.taken found)))
          (record {
            queues = view-set sources at (source tried.1);
            calm = still-IsCalm;
            answers = (found, refl);
          })
    | inr missed ↦
        let same = tried_lem.nothing missed in
        subst (λ p. Polled p m asked)
          (sym (looked-some sources at s [] here (no_messages s (sym tried_lem.found ∙ missed))))
          (record {
            queues =
                view-set sources at (source tried.1)
                ∙ ap (λ h. set (view sources) at (contents (ring h))) same.0
                ∙ set-get_elem? (view sources) at (queue_of s)
                    (get_elem?-map sources at (some s) here);
            calm = still-IsCalm;
            answers = (missed, same.1);
          })
  ]

pub ask-Polled :
    (sources : List Source) (at : ℕ) (m : Message)
    → All IsCalm sources
    → Polled (look_at at (view sources)) m (ask sources at m)
ask-Polled sources at m calm = elim (Option-cases (get_elem? sources at)) [
  | inl absent ↦
      subst (λ p. Polled p m (ask sources at m)) (sym (looked-none sources at absent))
        (subst (Polled (none, view sources) m) (sym (ask-none sources at m absent))
          (record { queues = refl; calm = calm; answers = (refl, refl) }))
  | inr (s, here) ↦
      subst (Polled (look_at at (view sources)) m) (sym (ask-some sources at m s here))
        (asked-Polled sources at m calm s here)
]
