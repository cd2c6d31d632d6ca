-- ===== src/Steps/Tee/Examples.antt =====
-- A dump, and messages through the step.
use hsqueue.Base.{◌+◌, ◌%◌, ◌≡◌, refl, false, [], ◌∷◌, ◌++◌, tabulate, if◌then◌else◌, codes, arith}
use hsqueue.Message.{Message, Memory, blank, heartbeat}
use hsqueue.Steps.Send.{Destination}
use hsqueue.Steps.Tee.{Tee, make_tee, start, handle_all, message_text}
use hsqueue.Steps.Tee.Dump.{hex_dump}
use hsqueue.Steps.Tee.Readback.{read_dump}
use hsqueue.Steps.Tee.RoundTrip.{read_dump-hex_dump}
use hsqueue.Steps.Tee.Forwarding.{has_output, message_texts, start-handle_all}

abbrev letters : Memory
letters a = (60 + a) % 256

-- Eighteen bytes take two lines, the second mostly blank.
dumped :
    hex_dump letters 18
    ≡ codes "0000: 3c 3d 3e 3f 40 41 42 43 44 45 46 47 48 49 4a 4b <=>?@ABCDEFGHIJK"
      ++ (10 ∷ (codes "0010: 4c 4d                                           LM" ++ 10 ∷ []))
unfolding hex_dump
dumped = refl

read_dump-hex_dump_example : read_dump (hex_dump letters 18) ≡ tabulate letters 0 18
read_dump-hex_dump_example = read_dump-hex_dump letters 18 (λ i. omega arith)

abbrev looking : Destination
looking sent m = m

abbrev beat : Message
beat = record blank { kind = heartbeat; sequence = 7; timestamp = 12 }

abbrev tee : Tee
tee = record make_tee { output_name = codes "cout" }

described :
    message_text letters beat ≡ codes "Message type: Heartbeat Sequence: 7 Time: 12" ++ 10 ∷ []
unfolding hex_dump
described = refl

start-handle_all_example :
    let s' = handle_all looking letters (start (λ name. false) tee) (beat ∷ beat ∷ []) in
    (s'.sent ≡ [] ++ (if has_output (λ name. false) tee then beat ∷ beat ∷ [] else []))
    × (s'.written
        ≡ []
          ++ (if has_output (λ name. false) tee
              then message_texts letters (beat ∷ beat ∷ [])
              else []))
start-handle_all_example =
    start-handle_all looking letters (λ name. false) tee (beat ∷ beat ∷ []) refl
