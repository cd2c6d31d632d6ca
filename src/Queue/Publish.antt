-- ===== src/Queue/Publish.antt =====
-- What `Producer::publish` does to the contents of the queue.
use hsqueue.Base.{
  ℕ, suc, ◌+◌, ◌-◌, ◌≤◌, ◌<◌, ◌≡◌, ◌≢◌, inl, inr, refl, sym, ap, ◌∙◌, Bool, true, false, ◌||◌, List,
  [], ◌∷◌, ◌++◌, arith, if◌then◌else◌, add64, Bool-cases, subst, tabulate, ltb→lt, if_of_true,
  if_of_false,
}
use hsqueue.Message.{Message, move_to, is_empty, get}
use hsqueue.Wait.{start}
use hsqueue.Queue.Header.{Header, Entry, filled, skip, entry_at, set_entry}
use hsqueue.Queue.Producer.{Producer, Scene, Tick, can_publish, notify_consumer, publish}
use hsqueue.Queue.Window.{ring, contents, IsValid, put_at, put_at-IsValid}
use hsqueue.Queue.Look.{Knows, IsEarly, has_room, may_discard, made_room, Looked, can_publish_lem}
use hsqueue.Queue.Round.{after_publish, publish_shared_room, publish_solo_room, counted, Finishes}

ring-notify_consumer : (p : Producer) (h : Header) → ring (notify_consumer p h) ≡ ring h
unfolding notify_consumer
ring-notify_consumer p h = ground arith

notify_consumer_keeps :
    (p : Producer) (h : Header)
    → ((notify_consumer p h).publish_position ≡ h.publish_position)
      × ((notify_consumer p h).read_position ≡ h.read_position)
      × ((notify_consumer p h).entry_count ≡ h.entry_count)
      × (p.consumer_uses_mutex ≡ true → (notify_consumer p h).consumer_waiting ≡ false)
unfolding notify_consumer
notify_consumer_keeps p h = (ground arith, ground arith, ground arith, λ e. ground arith)

after_publish-Published :
    (s : Scene)
    → IsValid (ring s.header)
    → Knows s.producer s.header
    → IsEarly s.header
    → s.header.publish_position < s.header.read_position + s.header.entry_count
    → let s' = after_publish s s.header.publish_position in
      IsValid (ring s'.header)
      × (contents (ring s'.header) ≡ contents (ring s.header) ++ s.message ∷ [])
      × (is_empty s'.message ≡ true)
      × (get s'.message ≡ get (entry_at s.header s.header.publish_position).message)
      × (s'.header.publish_position ≡ s.header.publish_position + 1)
      × Knows s'.producer s'.header
      × (s'.header.read_position ≡ s.header.read_position)
      × (s'.header.entry_count ≡ s.header.entry_count)
      × (s.producer.consumer_uses_mutex ≡ true → s'.header.consumer_waiting ≡ false)
unfolding move_to is_empty get
after_publish-Published s v k early room =
    let put = put_at-IsValid entry v room refl in
    (
      subst IsValid (sym there) put.0,
      ap contents there ∙ put.1,
      refl,
      refl,
      kept.0 ∙ next,
      record {
        same_count = k.same_count ∙ sym kept.2;
        within = omega (arith, kept.1, kept.2, k.within);
      },
      kept.1,
      kept.2,
      kept.3,
    )
  where
    entry : Entry
    entry = record { message = s.message; status = filled }

    stored : Header
    stored = record (set_entry s.header s.header.publish_position entry) {
      publish_position = add64 s.header.publish_position 1;
    }

    next : add64 s.header.publish_position 1 ≡ s.header.publish_position + 1
    next = omega arith

    there : ring (notify_consumer s.producer stored) ≡ put_at (ring s.header) entry
    there =
        ring-notify_consumer s.producer stored
        ∙ ap (λ k. record (ring stored) { publish_position = k }) next

    kept :
        ((notify_consumer s.producer stored).publish_position ≡ stored.publish_position)
        × ((notify_consumer s.producer stored).read_position ≡ stored.read_position)
        × ((notify_consumer s.producer stored).entry_count ≡ stored.entry_count)
        × (s.producer.consumer_uses_mutex ≡ true
            → (notify_consumer s.producer stored).consumer_waiting ≡ false)
    kept = notify_consumer_keeps s.producer stored

emptied-IsValid :
    (h : Header)
    → IsValid (ring h)
    → IsValid (ring (record h { read_position = h.publish_position }))
emptied-IsValid h v = record {
  some_entries = v.some_entries;
  sized = v.sized;
  ordered = omega arith;
  bounded = omega arith;
  no_skip = v.no_skip;
  ready = λ i lo hi. absurd (omega (arith, lo, hi));
}

emptied-contents :
    (h : Header) → contents (ring (record h { read_position = h.publish_position })) ≡ []
unfolding contents
emptied-contents h =
    let e : h.publish_position - h.publish_position ≡ 0 = omega arith in
    ap (tabulate _ h.publish_position) e

-- What a call of `publish` of a message leaves where the queue has room, or leave to discard: its
-- contents with the message behind them, or the message alone.
pub record Published (h : Header) (message : Message) (uses_mutex : Bool) (s' : Scene)
    : Type 0 where
  pub valid : IsValid (ring s'.header)
  pub appended :
      contents (ring s'.header) ≡ (if has_room h then contents (ring h) else []) ++ message ∷ []
  pub emptied : is_empty s'.message ≡ true
  pub block : get s'.message ≡ get (entry_at h h.publish_position).message
  pub next : s'.header.publish_position ≡ h.publish_position + 1
  pub knows : Knows s'.producer s'.header
  pub going : s'.producer.stopping ≡ false
  pub forward : h.read_position ≤ s'.header.read_position
  pub count : s'.header.entry_count ≡ h.entry_count
  pub awake : uses_mutex ≡ true → s'.header.consumer_waiting ≡ false

module _ (s : Scene) (p : Producer) (v : IsValid (ring s.header)) (early : IsEarly s.header)
    (on : p.stopping ≡ false) where
  abbrev Leaves : Header → Type 0
  Leaves h =
      Knows p h
      → Published s.header s.message p.consumer_uses_mutex
          (after_publish (record s { producer = p; header = h }) s.header.publish_position)

  into_room : has_room s.header ≡ true → Leaves s.header
  into_room room k =
      let (valid, appended, emptied, block, next, knows, read, count, awake) =
        after_publish-Published (record s { producer = p }) v k early (ltb→lt _ _ room) in
      record {
        valid = valid;
        appended = simp room appended;
        emptied = emptied;
        block = block;
        next = next;
        knows = knows;
        going = on;
        forward = omega (arith, read, v.ordered);
        count = count;
        awake = awake;
      }

  into_discarded :
      has_room s.header ≡ false
      → Leaves (record (s.header) { read_position = s.header.publish_position })
  into_discarded full k =
      let (valid, appended, emptied, block, next, knows, read, count, awake) =
        after_publish-Published (record s { producer = p; header = cleared })
          (emptied-IsValid s.header v) k early (omega (arith, v.some_entries)) in
      record {
        valid = valid;
        appended = simp full (appended ∙ ap (λ l. l ++ s.message ∷ []) (emptied-contents s.header));
        emptied = emptied;
        block = block;
        next = next;
        knows = knows;
        going = on;
        forward = omega (arith, read, v.ordered);
        count = count;
        awake = awake;
      }
    where
      cleared : Header
      cleared = record (s.header) { read_position = s.header.publish_position }

  into_made_room :
      (has_room s.header || may_discard s.producer s.header) ≡ true
      → Leaves (made_room s.producer s.header)
  into_made_room e = elim (Bool-cases (has_room s.header)) [
    | inl room ↦ subst Leaves (sym (simp room)) (into_room room)
    | inr full ↦
        let discard : may_discard s.producer s.header ≡ true = simp full at e in
        subst Leaves (sym (simp (full, discard))) (into_discarded full)
  ]

-- The scene after the look of a loop at the queue.
abbrev looked : Scene → Scene
looked s =
    let (can, p, h) = can_publish s.producer s.header s.header.publish_position in
    record s { producer = p; header = h }

made_room-no_skip :
    (p : Producer) (h : Header)
    → IsValid (ring h)
    → (entry_at (made_room p h) h.publish_position).status ≢ skip
made_room-no_skip p h v = elim (Bool-cases (has_room h)) [
  | inl room ↦ simp room (v.no_skip h.publish_position)
  | inr full ↦ elim (Bool-cases (may_discard p h)) [
    | inl discard ↦ simp (full, discard) (v.no_skip h.publish_position)
    | inr stuck ↦ simp (full, stuck) (v.no_skip h.publish_position)
  ]
]

-- `publish`, with one producer or more, on a valid queue that has room, or whose contents it may
-- discard since no consumer is attached, returns at its first look, unless it is stopped: the message
-- stands behind the contents, the caller's message is empty on the block that the entry had, and a
-- consumer that waits on the mutex is woken.
pub publish_lem :
    (rounds : ℕ) (t : Tick) (ts : List Tick) (s : Scene)
    → IsValid (ring s.header)
    → Knows s.producer s.header
    → IsEarly s.header
    → s.producer.stopping ≡ false
    → (has_room s.header || may_discard s.producer s.header) ≡ true
    → Finishes
        (Published s.header s.message s.producer.consumer_uses_mutex)
        (publish (suc rounds) (t ∷ ts) s)
unfolding publish
publish_lem rounds t ts s v k early going room = elim (Bool-cases s.producer.solo) [
  | inl solo ↦
      subst (Finishes _)
        (sym (if_of_true _ _ solo ∙ publish_solo_room rounds (t ∷ ts) (counted s) going can plain))
        left
  | inr shared ↦
      subst (Finishes _)
        (sym (
          if_of_false _ _ shared
          ∙ publish_shared_room t ts (start s.producer.wait_strategy) false (counted s) can plain))
        left
]
  where
    p : Producer
    p = (counted s).producer

    look : Looked p s.header (can_publish p s.header s.header.publish_position)
    look =
        can_publish_lem p s.header v (record { same_count = k.same_count; within = k.within }) early

    can : (can_publish p s.header s.header.publish_position).0 ≡ true
    can = look.answer ∙ room

    plain : (entry_at (looked (counted s)).header s.header.publish_position).status ≢ skip
    plain =
        subst (λ (h : Header). (entry_at h s.header.publish_position).status ≢ skip) (sym look.left)
          (made_room-no_skip p s.header v)

    left :
        Published s.header s.message s.producer.consumer_uses_mutex
          (after_publish (looked (counted s)) s.header.publish_position)
    left =
        subst
          (λ b.
            Published s.header s.message b
              (after_publish (looked (counted s)) s.header.publish_position))
          look.mutex
          (subst (Leaves (counted s) (looked (counted s)).producer v early (look.stopping ∙ going))
            (sym look.left) (into_made_room (counted s) _ v early (look.stopping ∙ going) room)
            look.knows)
