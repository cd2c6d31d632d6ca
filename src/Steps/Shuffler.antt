-- ===== src/Steps/Shuffler.antt =====
-- src/StepLibrary/Shuffler.cpp: a step for tests that sends messages out of order.
use mathlib.Core.List.{Perm, append_assoc, append-nil, perm_middle}
use mathlib.Core.List.Perm
use hsqueue.Base.{
  ℕ, zero, suc, ◌%◌, ◌<◌, ◌≡◌, refl, sym, ap, ◌∙◌, subst, Bool, true, false, not, List, [], ◌∷◌,
  ◌++◌, arith, ltb, if◌then◌else◌, add64, get_or, set, length, length-set, get_or-set_self,
  Bool-cases, if_of_true, if_of_false, ◌⊎◌, Option, none, some, inl, inr, Result, ok, err, ◌>>=◌,
  configuration_error, no_resources,
}
use hsqueue.Message.{Message, MessageType, heartbeat, shutdown, blank, is_empty, set_empty, move_to}
use hsqueue.Memory.BlockPool.{BlockPool}
use hsqueue.Steps.Pending.{fill_pending}
use hsqueue.Steps.Resources.{Resources, request_messages}
use hsqueue.Steps.Send.{Destination, send}
use hsqueue.Steps.Merge.Stash.{waiting, waiting-set}

pub record Shuffler : Type 0 where
  pub look_ahead : ℕ
  pub prime : ℕ
  pub position : ℕ
  pub pending : List Message
  pub published : ℕ
  pub heartbeats : ℕ
  pub shutdowns : ℕ
  pub leftovers : ℕ
  pub sent : List Message

-- `relativelyPrime_`
abbrev relatively_prime : ℕ
relatively_prime = 101

abbrev pub make_shuffler : Shuffler
make_shuffler = record {
  look_ahead = 0;
  prime = relatively_prime;
  position = 0;
  pending = [];
  published = 0;
  heartbeats = 0;
  shutdowns = 0;
  leftovers = 0;
  sent = [];
}

-- The keys of `configureParameter`, and any other.
pub data Key : Type 0 where
  look_ahead_key prime_key other_key : Key

-- The value is what the node gives; `base` is the answer of `Step::configureParameter`.
unfoldable pub configure_parameter : Key → Option ℕ → Bool → Shuffler → Bool × Shuffler
configure_parameter look_ahead_key (some n) base s = (true, record s { look_ahead = n })
configure_parameter prime_key (some n) base s = (true, record s { prime = n })
configure_parameter other_key value base s = (base, s)
configure_parameter key none base s = (false, s)

-- What `Shuffler::configureResources` asks for.
unfoldable pub configure_resources : Shuffler → Resources → Resources
configure_resources s r = request_messages s.look_ahead r

unfoldable pub attach_resources : Option BlockPool → Shuffler → Result (Option BlockPool × Shuffler)
attach_resources none s = err no_resources
attach_resources (some pool) s =
    fill_pending s.look_ahead pool s.pending >>= λ r. ok (some r.0, record s { pending = r.1 })

unfoldable pub validate : Bool → Shuffler → Result {0} Unit
validate has_destination s =
    if not has_destination
    then err configuration_error
    else if ltb (length s.pending) s.look_ahead
    then err no_resources
    else ok tt

module _ (receive : Destination) where
  -- The message that stands at `index` is sent first.
  abbrev pub evict : Shuffler → ℕ → Shuffler
  evict s index =
      let (sent, m) = send receive s.sent (get_or s.pending index blank) in
      if is_empty (get_or s.pending index blank) then s else record s {
        published = add64 s.published 1;
        sent = sent;
        pending = set s.pending index m;
      }

  unfoldable pub handle_data_message : Shuffler → Message → Shuffler × Message
  handle_data_message s m =
      let position = add64 s.position s.prime in
      let index = position % s.look_ahead in
      let s1 = evict (record s { position = position }) index in
      let (m', kept) = move_to m (get_or s1.pending index blank) in
      (record s1 { pending = set s1.pending index kept }, m')

  -- The loop of `publishPendingMessages`: what is sent, how many, and the messages after it.
  abbrev pub publish_all : List Message → List Message → ℕ → List Message × List Message × ℕ
  publish_all sent [] n = (sent, [], n)
  publish_all sent (m ∷ ms) n =
      let (sent', m') = send receive sent m in
      let kept = publish_all sent ms n in
      let gone = publish_all sent' ms (add64 n 1) in
      if is_empty m then (kept.0, m ∷ kept.1, kept.2) else (gone.0, m' ∷ gone.1, gone.2)

  unfoldable pub publish_pending_messages : Shuffler → Shuffler
  publish_pending_messages s =
      let (sent, pending, published) = publish_all s.sent s.pending s.published in
      record s { sent = sent; pending = pending; published = published }

  abbrev pub forward : Shuffler → Message → Shuffler × Message
  forward s m = let (sent, m') = send receive s.sent m in (record s { sent = sent }, m')

  -- `handle`, by the type of the message.
  abbrev pub handle_kind : MessageType → Shuffler → Message → Shuffler × Message
  handle_kind kind s m = elim kind [
    | heartbeat ↦
        forward (publish_pending_messages (record s { heartbeats = add64 s.heartbeats 1 })) m
    | shutdown ↦ forward (publish_pending_messages (record s { shutdowns = add64 s.shutdowns 1 })) m
    | _ ↦ handle_data_message s m
  ]

  unfoldable pub handle : Shuffler → Message → Shuffler × Message
  handle s m = handle_kind m.kind s m

abbrev pub count_full : List Message → ℕ
count_full [] = 0
count_full (m ∷ ms) = if is_empty m then count_full ms else add64 (count_full ms) 1

unfoldable pub finish : Shuffler → Shuffler
finish s = record s { leftovers = count_full s.pending }

waiting_put :
    (l : List Message) (i : ℕ) (m : Message)
    → i < length l
    → is_empty (get_or l i blank) ≡ true
    → is_empty m ≡ false
    → Perm (waiting (set l i m)) (m ∷ waiting l)
waiting_put [] i m lt free full = absurd (omega (arith, lt))
waiting_put (x ∷ xs) zero m lt free full = simp (full, free) Perm.rfl
waiting_put (x ∷ xs) (suc i) m lt free full = elim (Bool-cases (is_empty x)) [
  | inl none' ↦ simp none' (waiting_put xs i m (omega (arith, lt)) free full)
  | inr some' ↦ simp some' (
      Perm.trans (Perm.cons x (waiting_put xs i m (omega (arith, lt)) free full)) (Perm.swap m x _))
]

record Evicted (s s' : Shuffler) (index : ℕ) : Type 0 where
  same : Perm (s'.sent ++ waiting s'.pending) (s.sent ++ waiting s.pending)
  free : is_empty (get_or s'.pending index blank) ≡ true
  sized : length s'.pending ≡ length s.pending

evict-Evicted :
    (receive : Destination) (s : Shuffler) (index : ℕ)
    → index < length s.pending
    → Evicted s (evict receive s index) index
unfolding send set_empty is_empty
evict-Evicted receive s index lt = elim (Bool-cases (is_empty (get_or s.pending index blank))) [
  | inl free ↦
      subst (λ s'. Evicted s s' index) (sym (if_of_true _ _ free))
        (record { same = Perm.rfl; free = free; sized = refl })
  | inr full ↦
      subst (λ s'. Evicted s s' index) (sym (if_of_false _ _ full))
        (record {
          same =
              subst (λ l. Perm l (s.sent ++ waiting s.pending))
                (sym (append_assoc s.sent (get_or s.pending index blank ∷ []) _))
                (Perm.append_left s.sent (Perm.symm (waiting-set s.pending index _ full refl)));
          free = ap is_empty (get_or-set_self s.pending index _ blank lt);
          sized = length-set s.pending index _;
        })
]

-- No message is lost or sent twice by a data message that is not empty: what was sent or kept, with
-- the new message, is what is sent or kept afterwards.
pub handle_data_message_keeps :
    (receive : Destination) (s : Shuffler) (m : Message)
    → 0 < s.look_ahead
    → length s.pending ≡ s.look_ahead
    → is_empty m ≡ false
    → let s' = (handle_data_message receive s m).0 in
      Perm (s'.sent ++ waiting s'.pending) (m ∷ s.sent ++ waiting s.pending)
unfolding handle_data_message move_to
handle_data_message_keeps receive s m window sized full =
    Perm.trans
      (Perm.append_left s1.sent
        (waiting_put s1.pending index m (omega (arith, e.sized, inside)) e.free full))
      (Perm.trans (perm_middle s1.sent (waiting s1.pending)) (Perm.cons m e.same))
  where
    index : ℕ
    index = add64 s.position s.prime % s.look_ahead

    inside : index < length s.pending
    inside = omega (arith, sized, window)

    s1 : Shuffler
    s1 = evict receive (record s { position = add64 s.position s.prime }) index

    e : Evicted (record s { position = add64 s.position s.prime }) s1 index
    e = evict-Evicted receive (record s { position = add64 s.position s.prime }) index inside

publish_all_lem :
    (receive : Destination) (sent ms : List Message) (n : ℕ)
    → ((publish_all receive sent ms n).0 ≡ sent ++ waiting ms)
      × (waiting (publish_all receive sent ms n).1 ≡ [])
unfolding send set_empty is_empty
publish_all_lem receive sent [] n = (sym (append-nil _), refl)
publish_all_lem receive sent (m ∷ ms) n = elim (Bool-cases (is_empty m)) [
  | inl none' ↦ simp none' (publish_all_lem receive sent ms n)
  | inr some' ↦
      let (a, b) = publish_all_lem receive (sent ++ m ∷ []) ms (add64 n 1) in
      simp some' (a ∙ append_assoc sent (m ∷ []) (waiting ms), b)
]

-- A heartbeat or a shutdown is sent on behind all the messages that were kept, in the order of their
-- slots, and nothing is kept afterwards.
pub handle_flushes :
    (receive : Destination) (s : Shuffler) (m : Message)
    → (m.kind ≡ heartbeat) ⊎ (m.kind ≡ shutdown)
    → let s' = (handle receive s m).0 in
      (s'.sent ≡ (s.sent ++ waiting s.pending) ++ m ∷ []) × (waiting s'.pending ≡ [])
unfolding handle send
handle_flushes receive s m kinds = elim kinds [
  | inl beat ↦ subst Flushed (sym beat) (flushed (record s { heartbeats = add64 s.heartbeats 1 }))
  | inr stop ↦ subst Flushed (sym stop) (flushed (record s { shutdowns = add64 s.shutdowns 1 }))
]
  where
    Flushed : MessageType → Type 0
    Flushed kind =
        let s' = (handle_kind receive kind s m).0 in
        (s'.sent ≡ (s.sent ++ waiting s.pending) ++ m ∷ []) × (waiting s'.pending ≡ [])

    flushed :
        (t : Shuffler)
        → let s' = (forward receive (publish_pending_messages receive t) m).0 in
          (s'.sent ≡ (t.sent ++ waiting t.pending) ++ m ∷ []) × (waiting s'.pending ≡ [])
    flushed t =
        let (a, b) = publish_all_lem receive t.sent t.pending t.published in
        unfold publish_pending_messages in (ap (λ l. l ++ m ∷ []) a, b)
