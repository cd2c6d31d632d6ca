-- ===== src/Steps/Mocks/Examples.antt =====
-- A producer of three test messages, and what a consumer counts of them.
use hsqueue.Base.{◌≡◌, refl, List, [], ◌∷◌, some, false, arith}
use hsqueue.Steps.Mocks.{
  make_mock_message, touch, Delivery, MockProducer, make_mock_producer, Tick, make_mock_consumer,
  handle_all, run, handle_kind,
}
use hsqueue.Steps.Mocks.Counts.{mock, Ended, handle_all-run}

abbrev quiet_tick : Tick
quiet_tick = record { signalled = false; stop = false }

abbrev three : MockProducer
three = record make_mock_producer { message_count = 3; number = 7 }

abbrev ticks : List Tick
ticks = quiet_tick ∷ quiet_tick ∷ quiet_tick ∷ quiet_tick ∷ []

-- The sum of sequence 5, producer 7 and the extra words 2 and 3.
touched : touch (make_mock_message 2 7 5) ≡ 17
unfolding touch make_mock_message
touched = refl

-- A message that is missing is one error.
missing :
    (handle_all (mock 1 7 0 ∷ mock 1 7 2 ∷ mock 1 7 3 ∷ []) (make_mock_consumer 0)).sequence_error
    ≡ 1
unfolding handle_kind make_mock_message
missing = refl

handle_all-run_example :
    (ds : List Delivery) × (p' : MockProducer) × (run 1 ticks 0 three ≡ some (ds, p'))
    × (p'.message_number ≡ 3)
    × Ended 0 3 (handle_all ds (make_mock_consumer 0))
handle_all-run_example =
    handle_all-run 1 0 0 ticks three (refl, (refl, (refl, (refl, tt)))) refl refl (omega arith)
      (omega arith) (omega arith)
