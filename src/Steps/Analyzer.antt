-- ===== src/Steps/Analyzer.antt =====
-- src/StepLibrary/MockMessageAnalyzer.cpp and hpp: a step that makes test messages of the packets that
-- carry them. The 32-bit word at an address is a parameter, since it depends on the order of bytes.
use hsqueue.Base.{ℕ, ◌≡◌, Bool, false, [], ◌∷◌, ◌++◌, if◌then◌else◌, add32}
use hsqueue.Message.{
  Message, Memory, MessageType, multicast_packet, mock_message, get, payload, set_type,
  set_sequence,
}
use hsqueue.Steps.Copying.{World, Receiver, send_to}

pub record Analyzer : Type 0 where
  pub stopping : Bool
  pub messages_handled : ℕ
  pub world : World

abbrev pub make_analyzer : World → Analyzer
make_analyzer world = record { stopping = false; messages_handled = 0; world = world }

module _ (read_word : Memory → ℕ → ℕ) where
  -- The sequence number is the first word of a test message.
  abbrev pub identify : MessageType → Memory → Message → Message
  identify kind mem m = elim kind [
    | multicast_packet ↦ set_sequence (set_type m mock_message) (read_word mem (get m))
    | _ ↦ m
  ]

  unfoldable pub handle : Receiver → Analyzer → Message → Analyzer × Message
  handle receive s m =
      let (world, m') = send_to receive 0 s.world (identify m.kind s.world.memory m) in
      if s.stopping
      then (s, m)
      else (record s { messages_handled = add32 s.messages_handled 1; world = world }, m')

  -- The bytes of a packet and the time of its arrival go on with it.
  pub handle-content :
      (receive : Receiver) (s : Analyzer) (m : Message)
      → s.stopping ≡ false
      → m.kind ≡ multicast_packet
      → (handle receive s m).0.world.sent
        ≡ s.world.sent
          ++ (
            0,
            record {
              kind = mock_message;
              timestamp = m.timestamp;
              sequence = read_word s.world.memory (get m);
              content = payload s.world.memory m;
            },
          )
            ∷ []
  unfolding handle send_to set_type set_sequence payload get
  handle-content receive s m going packet = rw (going, packet)
