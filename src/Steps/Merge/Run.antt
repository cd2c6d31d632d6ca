-- ===== src/Steps/Merge/Run.antt =====
-- What src/StepLibrary/OrderedMerge.cpp sends while data messages come to it, from its first message
-- on.
use mathlib.Core.List.{append_assoc, Mem}
use mathlib.Core.Path.{ap₂}
use hsqueue.Base.{
  ℕ, ◌+◌, ◌<◌, ◌≡◌, refl, sym, ap, ◌∙◌, subst, List, [], ◌∷◌, ◌++◌, arith, ◌==◌, if_of_true,
  if_of_false, Bool-cases, ◌⊎◌, inl, inr, true, All, tabulate, tabulate-append, length,
  length-append, w32,
}
use hsqueue.Message.{Message, is_empty}
use hsqueue.Steps.Send.{Destination, Outcome, returns, and_then}
use hsqueue.Steps.Merge.{Merge, slot, handle_data_message, place}
use hsqueue.Steps.Merge.Place.{InOrder, InOrder-refl, sequences}
use hsqueue.Steps.Merge.Setup.{IsIdle}
use hsqueue.Steps.Merge.Held.{Held, All-map}
use hsqueue.Steps.Merge.Taken.{Taken}
use hsqueue.Steps.Merge.Account.{IsAccounted, TakenAll, TakenAll-nil, TakenAll-cons}
use hsqueue.Steps.Merge.Order.{IsSettled, handle_data_message-Handled}

sequences-append : (l k : List Message) → sequences (l ++ k) ≡ sequences l ++ sequences k
sequences-append [] k = refl
sequences-append (m ∷ l) k = ap (λ t. m.sequence ∷ t) (sequences-append l k)

-- What is sent in a row is in order if its parts are.
pub InOrder-trans : (s t u : Merge) → InOrder s t → InOrder t u → InOrder s u
InOrder-trans s t u a b = record {
  out = a.out ++ b.out;
  delivered = b.delivered ∙ ap (λ l. l ++ b.out) a.delivered ∙ append_assoc s.sent a.out b.out;
  consecutive =
      sequences-append a.out b.out
      ∙ ap₂ ◌++◌ a.consecutive
          (b.consecutive ∙ ap (λ k. tabulate (λ i. i) k (length b.out)) a.advanced)
      ∙ tabulate-append (λ i. i) s.expected (length a.out) (length b.out)
      ∙ ap (tabulate (λ i. i) s.expected) (sym (length-append a.out b.out));
  advanced = omega (arith, a.advanced, b.advanced, length-append a.out b.out);
  same_window = b.same_window ∙ a.same_window;
}

-- The step as its first message makes it.
abbrev pub begin : Merge → Message → Merge
begin s m = record s { expected = m.sequence; highest_stashed = m.sequence }

abbrev last_of : Merge → Outcome (Merge × Message) → Merge
last_of s r = elim r [ returns (s', m') ↦ s' | _ ↦ s ]

module _ (receive : Destination) (sizeof_gap fuel : ℕ) where
  -- The step after a message.
  abbrev pub after : Merge → Message → Merge
  after s m = last_of s (handle_data_message receive sizeof_gap fuel s m)

  -- Data messages that come one after the other.
  abbrev pub handle_all : Merge → List Message → Outcome Merge
  handle_all s [] = returns s
  handle_all s (m ∷ ms) =
      and_then (handle_data_message receive sizeof_gap fuel s m) (λ r. handle_all r.0 ms)

  -- Each message is from the window of its time, or from before it.
  pub data Arrives : List Message → Merge → Merge → Type 0 where
    done : {s : Merge} → Arrives [] s s
    next :
        {s s' : Merge} {m : Message} {ms : List Message}
        → m.sequence < s.expected + s.look_ahead
        → s.expected + s.look_ahead + 1 < w32
        → Arrives ms (after s m) s'
        → Arrives (m ∷ ms) s s'

  begin-IsSettled : (s : Merge) (m : Message) → IsIdle s → IsSettled receive (begin s m)
  begin-IsSettled s m k = record {
    placed = record {
      window = k.placed.window;
      sized = k.placed.sized;
      placed = λ q full. absurd (cc (k.nothing q, full));
    };
    exhausted = k.nothing m.sequence;
  }

  begun :
      (s : Merge) (m : Message)
      → s.expected ≡ 0
      → 0 < m.sequence
      → handle_data_message receive sizeof_gap fuel s m
        ≡ handle_data_message receive sizeof_gap fuel (begin s m) m
  unfolding handle_data_message
  begun s m unset some =
      let first = if_of_true {b = s.expected == 0} (begin s m) s (ground (arith, unset)) in
      let as_is =
        if_of_false {b = m.sequence == 0} (begin (begin s m) m) (begin s m)
          (ground (arith, some)) in
      ap (λ u. place receive sizeof_gap fuel u m) (first ∙ sym as_is)

  Arrives-InOrder :
      {ms : List Message} {s s' : Merge}
      → IsSettled receive s
      → 0 < s.expected
      → Arrives ms s s'
      → (handle_all s ms ≡ returns s')
        × (o : InOrder s s') × IsSettled receive s'
        × TakenAll s ms s' o.out
  unfolding InOrder-refl InOrder-trans
  Arrives-InOrder {s = s} k some done = (refl, InOrder-refl s, k, TakenAll-nil s)
  Arrives-InOrder {s = s} {s' = s'} k some (next {m = m} {ms = ms} inside near rest) =
      let h = handle_data_message-Handled receive sizeof_gap fuel s m k some near inside in
      let same : h.last ≡ after s m = sym (ap (last_of s) h.returned) in
      let step : (o : InOrder s (after s m)) × Taken s m (after s m) o.out =
        subst (λ u. (o : InOrder s u) × Taken s m u o.out) same (h.in_order, h.taken) in
      let (in_order, taken_one) = step in
      let (ended, o, settled, taken) =
        Arrives-InOrder (subst (IsSettled receive) same h.settled)
          (subst (λ (u : Merge). 0 < u.expected) same (omega (arith, some, h.in_order.advanced)))
          rest in
      (
        rw (h.returned) (subst (λ u. handle_all u ms ≡ returns s') (sym same) ended),
        InOrder-trans s (after s m) s' in_order o,
        settled,
        TakenAll-cons s (after s m) s' m ms in_order.out o.out taken_one taken
            (omega (arith, o.advanced)),
      )

  -- A merge that is idle gets a first message, with a number that is not 0, and then others, in
  -- whatever order and however often, each from the window of its time or from before it: no call
  -- throws or runs on, and what is sent starts with the number of the first message and goes on with
  -- the numbers that follow, none left out and none twice. Each message that is sent or kept is one
  -- of those that came, as it came; each that came with contents is accounted for: its number is
  -- among those sent or lies before the first, or a message with it waits, of which the next
  -- expected never does. No number may wrap.
  pub handle_all-InOrder :
      (s s' : Merge) (m : Message) (ms : List Message)
      → IsIdle s
      → 0 < m.sequence
      → m.sequence + s.look_ahead + 1 < w32
      → Arrives ms (after s m) s'
      → (out : List Message) × (handle_all s (m ∷ ms) ≡ returns s')
        × (s'.sent ≡ s.sent ++ out)
        × (sequences out ≡ tabulate (λ i. i) m.sequence (length out))
        × (0 < length out)
        × (s'.expected ≡ m.sequence + length out)
        × IsSettled receive s'
        × All (λ x. Mem x (m ∷ ms)) out
        × ((q : ℕ) → (is_empty (slot s' q) ≡ true) ⊎ Mem (slot s' q) (m ∷ ms))
        × All (IsAccounted s') (m ∷ ms)
  unfolding InOrder-trans
  handle_all-InOrder s s' m ms idle some near rest =
      let settled = begin-IsSettled s m idle in
      let h =
        handle_data_message-Handled receive sizeof_gap fuel (begin s m) m settled some near
          (omega (arith, idle.placed.window)) in
      let given = begun s m idle.unset some ∙ h.returned in
      let same : after s m ≡ h.last = ap (last_of s) given in
      let on : m.sequence < h.last.expected = h.progress refl in
      let (ended, o, settled', taken) =
        Arrives-InOrder h.settled (omega (arith, on)) (subst (λ u. Arrives ms u s') same rest) in
      let all =
        TakenAll-cons (begin s m) h.last s' m ms h.in_order.out o.out h.taken taken
          (omega (arith, o.advanced)) in
      let whole = InOrder-trans (begin s m) h.last s' h.in_order o in
      (
        whole.out,
        rw given ended,
        whole.delivered,
        whole.consecutive,
        omega (arith, on, whole.advanced, o.advanced),
        whole.advanced,
        settled',
        All-map whole.out (λ x k. came x k) all.sent_known,
        λ q. elim (Bool-cases (is_empty (slot s' q))) [
          | inl none ↦ inl none
          | inr full ↦ inr (came (slot s' q) (all.held_known (slot s' q) (q, full, refl)))
        ],
        all.accounted,
      )
    where
      came : (x : Message) → Mem x (m ∷ ms) ⊎ Held s x → Mem x (m ∷ ms)
      came x (inl i) = i
      came x (inr (q, full, _)) = absurd (cc (idle.nothing q, full))
