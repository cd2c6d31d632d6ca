-- ===== src/Steps/Stopper.antt =====
-- src/StepLibrary/Stopper.cpp: a step that stops the pipeline after a number of messages.
use mathlib.Core.List.{append-nil, append_assoc}
use hsqueue.Base.{
  ℕ, ◌+◌, ◌%◌, ◌≡◌, sym, ap, ◌∙◌, Bool, true, false, not, ◌&&◌, List, [], ◌∷◌, ◌++◌, arith,
  Bool-cases, inl, inr, subst, if_of_true, if_of_false, leb, ltb, if◌then◌else◌, add32, w32, Option,
  none, some,
}
use hsqueue.Message.{Message, MessageType, heartbeat, shutdown}
use hsqueue.Steps.Send.{Destination, send}

-- `has_resources` tells whether `resources_` is still set; `stops` counts the calls of its `stop`.
pub record Stopper : Type 0 where
  pub messages_expected : ℕ
  pub heartbeats_expected : ℕ
  pub shutdowns_expected : ℕ
  pub messages_handled : ℕ
  pub heartbeats_handled : ℕ
  pub shutdowns_handled : ℕ
  pub stopping : Bool
  pub has_resources : Bool
  pub stops : ℕ
  pub sent : List Message

abbrev pub make_stopper : Stopper
make_stopper = record {
  messages_expected = 0;
  heartbeats_expected = 0;
  shutdowns_expected = 0;
  messages_handled = 0;
  heartbeats_handled = 0;
  shutdowns_handled = 0;
  stopping = false;
  has_resources = false;
  stops = 0;
  sent = [];
}

pub data Key : Type 0 where
  data_messages_key heartbeats_key shutdowns_key other_key : Key

-- The value is cut to 32 bits; `base` is the answer of `Step::configureParameter`.
unfoldable pub configure_parameter : Key → Option ℕ → Bool → Stopper → Bool × Stopper
configure_parameter data_messages_key (some n) base s =
    (true, record s { messages_expected = n % w32 })
configure_parameter heartbeats_key (some n) base s =
    (true, record s { heartbeats_expected = n % w32 })
configure_parameter shutdowns_key (some n) base s =
    (true, record s { shutdowns_expected = n % w32 })
configure_parameter other_key value base s = (base, s)
configure_parameter key none base s = (false, s)

unfoldable pub attach_resources : Bool → Stopper → Stopper
attach_resources given s = record s { has_resources = given }

-- `resources_->stop()` stops every step of the pipeline, this one too.
abbrev pub stop_if : Bool → Stopper → Stopper
stop_if reached s =
    if reached && s.has_resources
    then record s { stopping = true; has_resources = false; stops = s.stops + 1 }
    else s

abbrev pub count_kind : MessageType → Stopper → Stopper
count_kind kind s = elim kind [
  | heartbeat ↦
      let n = add32 s.heartbeats_handled 1 in
      stop_if (ltb 0 s.heartbeats_expected && leb s.heartbeats_expected n)
        (record s { heartbeats_handled = n })
  | shutdown ↦
      let n = add32 s.shutdowns_handled 1 in
      stop_if (ltb 0 s.shutdowns_expected && leb s.shutdowns_expected n)
        (record s { shutdowns_handled = n })
  | _ ↦
      let n = add32 s.messages_handled 1 in
      stop_if (ltb 0 s.messages_expected && leb s.messages_expected n)
        (record s { messages_handled = n })
]

unfoldable pub handle : Destination → Stopper → Message → Stopper × Message
handle receive s m =
    let s1 = if s.stopping then s else count_kind m.kind s in
    let (sent, m') = send receive s1.sent m in (record s1 { sent = sent }, m')

abbrev pub handle_all : Destination → Stopper → List Message → Stopper
handle_all receive s [] = s
handle_all receive s (m ∷ ms) = handle_all receive (handle receive s m).0 ms

-- The resources are stopped once, when they are let go, or not yet.
pub record IsOnce (s : Stopper) : Type 0 where
  pub once : s.stops ≡ (if s.has_resources then 0 else 1)
  pub stopped : s.stopping ≡ not s.has_resources

stop_if-IsOnce : (reached : Bool) (s : Stopper) → IsOnce s → IsOnce (stop_if reached s)
stop_if-IsOnce reached s k = record {
  once = ground (arith, k.once);
  stopped = ground (arith, k.stopped);
}

count_kind-IsOnce : (kind : MessageType) (s : Stopper) → IsOnce s → IsOnce (count_kind kind s)
count_kind-IsOnce kind s k = record {
  once = ground (arith, k.once);
  stopped = ground (arith, k.stopped);
}

count_kind-sent : (kind : MessageType) (s : Stopper) → (count_kind kind s).sent ≡ s.sent
count_kind-sent kind s = ground arith

-- Any run of messages is sent on as it is, and the stopper stops the pipeline at most once in it, if
-- it has not done so before; it lets its resources go and is itself stopped exactly when it has.
pub handle_all-IsOnce :
    (receive : Destination) (s : Stopper) (ms : List Message)
    → IsOnce s
    → IsOnce (handle_all receive s ms) × ((handle_all receive s ms).sent ≡ s.sent ++ ms)
unfolding handle send
handle_all-IsOnce receive s [] k = (k, sym (append-nil _))
handle_all-IsOnce receive s (m ∷ ms) k =
    let (once, sent) =
      handle_all-IsOnce receive (record s1 { sent = s1.sent ++ m ∷ [] }) ms
        (record { once = k1.once; stopped = k1.stopped }) in
    (once, sent ∙ append_assoc s1.sent (m ∷ []) ms ∙ ap (λ l. l ++ m ∷ ms) same)
  where
    s1 : Stopper
    s1 = if s.stopping then s else count_kind m.kind s

    k1 : IsOnce s1
    k1 = elim (Bool-cases s.stopping) [
      | inl stop ↦ subst IsOnce (sym (if_of_true _ _ stop)) k
      | inr going ↦ subst IsOnce (sym (if_of_false _ _ going)) (count_kind-IsOnce m.kind s k)
    ]

    same : s1.sent ≡ s.sent
    same = elim (Bool-cases s.stopping) [
      | inl stop ↦ ap (λ (t : Stopper). t.sent) (if_of_true _ _ stop)
      | inr going ↦ ap (λ (t : Stopper). t.sent) (if_of_false _ _ going) ∙ count_kind-sent m.kind s
    ]
