-- ===== src/Steps/Mocks/Counts.antt =====
-- What the consumer of src/StepLibrary/MockMessageConsumer.hpp counts of the messages that the producer
-- of MockMessageProducer.hpp makes.
use hsqueue.Base.{
  ℕ, zero, suc, ◌+◌, ◌<◌, ◌≡◌, refl, sym, ap, ◌∙◌, subst, false, not, ◌&&◌, ◌||◌, List, [], ◌∷◌,
  ◌++◌, some, leb, ◌==◌, if◌then◌else◌, add32, w32, tabulate, length, All, arith, if_of_true,
  if_of_false,
}
use mathlib.Core.List.{append_assoc}
use hsqueue.Message.{mock_message, shutdown}
use hsqueue.Steps.Mocks.{
  make_mock_message, Delivery, MockProducer, Tick, produce_loop, run, MockConsumer,
  make_mock_consumer, handle_kind, handle, handle_all, stop_if, goes_on, run_from,
}

-- The test message of a number, and the shutdown.
abbrev pub mock : ℕ → ℕ → ℕ → Delivery
mock extra number n = record {
  kind = mock_message;
  sequence = n;
  words = make_mock_message extra number n;
}

abbrev pub last_message : ℕ → Delivery
last_message n = record { kind = shutdown; sequence = n; words = [] }

-- Nobody calls `stop`.
abbrev pub IsQuiet : Tick → Type 0
IsQuiet t = t.stop ≡ false

quiet : (t : Tick) (p : MockProducer) → IsQuiet t → stop_if t.stop p ≡ p
quiet t p q = ap (λ b. record p { stopping = b }) (ground (arith, q))

-- The loop from a number on sends the rest of the count, then the shutdown.
produce_loop_lem :
    (extra last : ℕ) (ts : List Tick) (p : MockProducer) (sent : List Delivery) (left : ℕ)
    → All IsQuiet ts
    → p.stopping ≡ false
    → 0 < p.message_count
    → p.message_count < w32
    → p.message_number + left ≡ p.message_count
    → left < length ts
    → (end : ℕ) × (produce_loop extra ts last p sent
        ≡ some (
          sent ++ (tabulate (mock extra p.number) p.message_number left ++ last_message end ∷ []),
          record p { message_number = p.message_count },
        ))
unfolding produce_loop
produce_loop_lem extra last [] p sent left q going pos small e enough = absurd (omega arith)
produce_loop_lem extra last (t ∷ ts) p sent zero (q, qs) going pos small e enough = (
  last,
  if_of_false {b = goes_on (stop_if t.stop p)} _ _ (ground (arith, q, going, e))
      ∙ ap (λ (r : MockProducer). some (sent ++ last_message last ∷ [], r))
          (quiet t p q ∙ ap (λ n. record p { message_number = n }) (omega (arith, e))),
)
produce_loop_lem extra last (t ∷ ts) p sent (suc left) (q, qs) going pos small e enough =
    let (end, rest) =
      produce_loop_lem extra p.message_number ts
        (record p { message_number = add32 p.message_number 1 })
        (sent ++ mock extra p.number p.message_number ∷ []) left qs going pos small
        (omega (arith, e)) (omega arith) in
    (
      end,
      if_of_true {b = goes_on (stop_if t.stop p)} _ _ (ground (arith, q, going, e, pos))
          ∙ ap
              (λ (r : MockProducer).
                produce_loop extra ts r.message_number
                  (record r { message_number = add32 r.message_number 1 })
                  (sent ++ mock extra r.number r.message_number ∷ []))
              (quiet t p q)
          ∙ rest
          ∙ ap (λ l. some (l, record p { message_number = p.message_count }))
              (append_assoc sent _ _
                ∙ ap
                    (λ n.
                      sent
                      ++ (mock extra p.number p.message_number
                          ∷ (tabulate (mock extra p.number) n left ++ last_message end ∷ [])))
                    (omega (arith, small, e))),
    )

-- What has been counted after the first so many messages.
record Counted (expected n : ℕ) (c : MockConsumer) : Type 0 where
  count : c.message_count ≡ expected
  handled : c.messages_handled ≡ n
  next : c.next_sequence ≡ n
  errors : c.sequence_error ≡ 0
  unexpected : c.unexpected_message_error ≡ 0
  shutdowns : c.shutdowns ≡ 0
  gaps : c.gaps ≡ 0
  stopping : c.stopping ≡ (not (expected == 0) && leb expected n)

mock-Counted :
    (expected extra number n : ℕ) (c : MockConsumer)
    → n + 1 < w32
    → Counted expected n c
    → Counted expected (n + 1) (handle (mock extra number n) c)
unfolding handle_kind make_mock_message
mock-Counted expected extra number n c small k = record {
  count = k.count;
  handled = ground (arith, k.handled);
  next = omega arith;
  errors = ground (arith, k.next, k.errors);
  unexpected = k.unexpected;
  shutdowns = k.shutdowns;
  gaps = k.gaps;
  stopping = ground (arith, k.handled, k.count, k.stopping);
}

mocks-Counted :
    (expected extra number n left : ℕ) (c : MockConsumer)
    → n + left < w32
    → Counted expected n c
    → Counted expected (n + left) (handle_all (tabulate (mock extra number) n left) c)
mocks-Counted expected extra number n zero c small k =
    subst (λ j. Counted expected j c) (omega arith) k
mocks-Counted expected extra number n (suc left) c small k =
    subst (λ j. Counted expected j (handle_all (tabulate (mock extra number) n (suc left)) c))
      (omega arith)
      (mocks-Counted expected extra number (n + 1) left _ (omega arith)
        (mock-Counted expected extra number n c (omega arith) k))

fresh : (expected : ℕ) → Counted expected 0 (make_mock_consumer expected)
fresh expected = record {
  count = refl;
  handled = refl;
  next = refl;
  errors = refl;
  unexpected = refl;
  shutdowns = refl;
  gaps = refl;
  stopping = ground arith;
}

handle_all-append :
    (ds es : List Delivery) (c : MockConsumer)
    → handle_all (ds ++ es) c ≡ handle_all es (handle_all ds c)
handle_all-append [] es c = refl
handle_all-append (d ∷ ds) es c = handle_all-append ds es (handle d c)

-- The counts at the end, with the shutdown.
abbrev pub Ended : ℕ → ℕ → MockConsumer → Type 0
Ended expected n c =
    (c.messages_handled ≡ n)
    × (c.sequence_error ≡ 0)
    × (c.unexpected_message_error ≡ 0)
    × (c.shutdowns ≡ (if expected == 0 then 1 else 0))
    × (c.stopping ≡ (expected == 0 || leb expected n))

shutdown-Ended :
    (expected n end : ℕ) (c : MockConsumer)
    → Counted expected n c
    → Ended expected n (handle (last_message end) c)
unfolding handle_kind
shutdown-Ended expected n end c k = (
  ground (arith, k.handled, k.count),
  ground (arith, k.errors, k.count),
  ground (arith, k.unexpected, k.count),
  ground (arith, k.shutdowns, k.count),
  ground (arith, k.stopping, k.count),
)

-- A producer with a count that is not 0, started without a signal and never stopped, ends after as many
-- rounds as its count and one more. A new consumer that is handed what it has sent finds no message out
-- of sequence and none that it does not expect, and has handled as many as the count. If it expects no
-- number of its own, it has taken the shutdown; else it takes none. It stops if it took the shutdown or
-- got all that it expects.
pub handle_all-run :
    (extra expected last : ℕ) (ts : List Tick) (p : MockProducer)
    → All IsQuiet ts
    → p.stopping ≡ false
    → p.has_start_signal ≡ false
    → 0 < p.message_count
    → p.message_count < w32
    → p.message_count < length ts
    → (ds : List Delivery) × (p' : MockProducer) × (run extra ts last p ≡ some (ds, p'))
      × (p'.message_number ≡ p.message_count)
      × Ended expected p.message_count (handle_all ds (make_mock_consumer expected))
unfolding run
handle_all-run extra expected last ts p q going no_signal pos small enough =
    let (end, e) =
      produce_loop_lem extra last ts (record p { message_number = 0 }) [] p.message_count q going
        pos small (omega arith) enough in
    let k =
      mocks-Counted expected extra p.number 0 p.message_count (make_mock_consumer expected)
        (omega (arith, small)) (fresh expected) in
    (
      _,
      _,
      ap (run_from extra last) (if_of_false _ _ no_signal) ∙ e,
      refl,
      subst (Ended expected p.message_count)
          (sym (
            handle_all-append (tabulate (mock extra p.number) 0 p.message_count)
              (last_message end ∷ []) (make_mock_consumer expected)))
          (shutdown-Ended expected p.message_count end _ (
            subst
              (λ j. Counted expected j (
                handle_all (tabulate (mock extra p.number) 0 p.message_count)
                  (make_mock_consumer expected)))
              (omega arith) k)),
    )
