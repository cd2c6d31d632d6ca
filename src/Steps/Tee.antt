-- ===== src/Steps/Tee.antt =====
-- src/StepLibrary/Tee.cpp: a step that writes each message to a stream before it sends it on.
pub mod Dump
pub mod Readback
pub mod RoundTrip
pub mod Forwarding
mod Examples
use hsqueue.Base.{
  ℕ, zero, suc, ◌+◌, ◌/◌, ◌%◌, Bool, true, false, not, ◌&&◌, List, [], ◌∷◌, ◌++◌, Option, none,
  some, ◌==◌, if◌then◌else◌, codes, ◌≡◌, refl, sym, ap, ◌∙◌,
}
use mathlib.Core.List.{append_assoc, append-nil}
use hsqueue.Message.{Message, Memory, get}
use hsqueue.Message.Names.{type_name}
use hsqueue.Steps.Send.{Destination, send}
use hsqueue.Steps.Step.{same_text}
use hsqueue.Steps.Tee.Dump.{hex_dump}

-- Where `out_` points to: a stream that was attached, the standard streams, or the step's own file.
pub data Sink : Type 0 where
  attached cout cerr file : Sink

-- `written` is what the stream got.
pub record Tee : Type 0 where
  pub stopping : Bool
  pub output_name : List ℕ
  pub out : Option Sink
  pub file_is_open : Bool
  pub written : List ℕ
  pub sent : List Message

abbrev pub make_tee : Tee
make_tee = record {
  stopping = false;
  output_name = [];
  out = none;
  file_is_open = false;
  written = [];
  sent = [];
}

unfoldable pub attach_output_stream : Bool → Tee → Tee
attach_output_stream given s = record s { out = if given then some attached else none }

-- `configureParameter`: the value that the node gives for `output`, or the answer of
-- `Step::configureParameter` for another key.
pub data Parameter : Type 0 where
  output_key : Option (List ℕ) → Parameter
  other_key : Bool → Parameter

unfoldable pub configure_parameter : Parameter → Tee → Bool × Tee
configure_parameter (output_key (some text)) s = (true, record s { output_name = text })
configure_parameter (output_key none) s = (false, record s { output_name = [] })
configure_parameter (other_key base) s = (base, s)

-- `opens` tells whether the file system opens a file of a name.
abbrev pub open_file : Bool → Tee → Tee
open_file true s = record s { out = some file; file_is_open = true }
open_file false s = s

abbrev pub open_output : (List ℕ → Bool) → Tee → Tee
open_output opens s =
    if same_text s.output_name (codes "cout")
    then record s { out = some cout }
    else if same_text s.output_name (codes "cerr")
    then record s { out = some cerr }
    else if same_text s.output_name (codes "null")
    then record s { out = none }
    else open_file (opens s.output_name) s

abbrev pub is_some {ℓ} : {A : Type ℓ} → Option A → Bool
is_some none = false
is_some (some a) = true

unfoldable pub start : (List ℕ → Bool) → Tee → Tee
start opens s = if is_some s.out then s else open_output opens s

-- A number in base 10, as a stream writes it; a number of 64 bits has at most 20 digits.
abbrev pub decimal_digits : ℕ → ℕ → List ℕ → List ℕ
decimal_digits zero n after = after
decimal_digits (suc rounds) n after =
    let more = decimal_digits rounds (n / 10) ((48 + n % 10) ∷ after) in
    if n / 10 == 0 then (48 + n % 10) ∷ after else more

abbrev pub decimal_text : ℕ → List ℕ
decimal_text n = decimal_digits 20 n []

abbrev pub message_text : Memory → Message → List ℕ
message_text mem m =
    codes "Message type: "
    ++ (type_name m.kind
        ++ (codes " Sequence: "
            ++ (decimal_text m.sequence
                ++ (codes " Time: "
                    ++ (decimal_text m.timestamp
                        ++ (10 ∷ hex_dump (λ i. mem (get m + i)) m.used))))))

-- The message goes on only where it is written.
unfoldable pub handle : Destination → Memory → Tee → Message → Tee × Message
handle receive mem s m =
    let (sent, m') = send receive s.sent m in
    if not s.stopping && is_some s.out
    then (record s { written = s.written ++ message_text mem m; sent = sent }, m')
    else (s, m)

unfoldable pub finish : Tee → Tee
finish s = if s.file_is_open then record s { file_is_open = false; out = none } else s

abbrev pub handle_all : Destination → Memory → Tee → List Message → Tee
handle_all receive mem s [] = s
handle_all receive mem s (m ∷ ms) = handle_all receive mem (handle receive mem s m).0 ms
