-- ===== src/Steps/Multicast/Sender.antt =====
-- src/StepLibrary/MulticastSender.cpp: messages go to a multicast group, but for heartbeats and
-- shutdowns. What the socket answers to each `send_to` is a parameter.
use hsqueue.Base.{
  ℕ, ◌%◌, ◌^◌, Bool, true, false, List, [], ◌∷◌, ◌++◌, Option, none, some, ◌==◌, if◌then◌else◌,
  add32, codes, Result, ok, err, configuration_error, ◌>>=◌,
}
use hsqueue.Message.{Message, Memory, MessageType, heartbeat, shutdown, payload}
use hsqueue.Steps.Asio
use hsqueue.Steps.Asio.{AsioStep}
use hsqueue.Steps.Resources.{Resources}
use hsqueue.Steps.Step.{same_text}

-- `datagrams` is what was handed to the socket.
pub record MulticastSender : Type 0 where
  pub group : List ℕ
  pub bind : List ℕ
  pub port : ℕ
  pub group_address : ℕ
  pub bind_address : ℕ
  pub asio : AsioStep
  pub has_socket : Bool
  pub message_count : ℕ
  pub error_count : ℕ
  pub datagrams : List (List ℕ)

abbrev pub make_multicast_sender : MulticastSender
make_multicast_sender = record {
  group = [];
  bind = codes "0.0.0.0";
  port = 0;
  group_address = 0;
  bind_address = 0;
  asio = Asio.make_asio_step;
  has_socket = false;
  message_count = 0;
  error_count = 0;
  datagrams = [];
}

pub data Parameter : Type 0 where
  port_key : Option ℕ → Parameter
  group_key bind_key : List ℕ → Parameter
  other_key : Bool → Parameter

unfoldable pub configure_parameter : Parameter → MulticastSender → Bool × MulticastSender
configure_parameter (port_key (some n)) s = (true, record s { port = n % 2 ^ 16 })
configure_parameter (port_key none) s = (false, s)
configure_parameter (group_key text) s = (true, record s { group = text })
configure_parameter (bind_key text) s = (true, record s { bind = text })
configure_parameter (other_key base) s = (base, s)

unfoldable pub configure_resources : Resources → Resources
configure_resources r = Asio.configure_resources r

-- `Address::from_string` throws where the text is no address.
abbrev from_string : (List ℕ → Option ℕ) → List ℕ → Result ℕ
from_string parse text = elim (parse text) [ none ↦ err configuration_error | some a ↦ ok a ]

unfoldable pub validate : (List ℕ → Option ℕ) → MulticastSender → Result MulticastSender
validate parse s =
    if s.port == 0
    then err configuration_error
    else if same_text s.group []
    then err configuration_error
    else from_string parse s.group >>= λ group. from_string parse s.bind >>= λ bind.
        Asio.validate s.asio >>= λ _. ok (record s { group_address = group; bind_address = bind })

-- Binding the socket is compiled in only where a macro is set.
unfoldable pub start : MulticastSender → MulticastSender
start s = record s { asio = Asio.start s.asio; has_socket = true }

abbrev pub is_sent : MessageType → Bool
is_sent kind = elim kind [ heartbeat ↦ false | shutdown ↦ false | _ ↦ true ]

-- `fails` tells whether the socket reports an error for what it is handed.
unfoldable pub handle : (List ℕ → Bool) → Memory → MulticastSender → Message → MulticastSender
handle fails mem s m =
    let counted = record s {
      message_count = add32 s.message_count 1;
      datagrams = s.datagrams ++ payload mem m ∷ [];
    } in
    if is_sent m.kind
    then (if fails (payload mem m)
        then record counted { error_count = add32 s.error_count 1 }
        else counted)
    else s

abbrev pub handle_all : (List ℕ → Bool) → Memory → MulticastSender → List Message → MulticastSender
handle_all fails mem s [] = s
handle_all fails mem s (m ∷ ms) = handle_all fails mem (handle fails mem s m) ms
