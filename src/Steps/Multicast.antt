-- ===== src/Steps/Multicast.antt =====
-- src/StepLibrary/MulticastReceiver.cpp: packets of a multicast group are sent on as messages. The
-- socket is boost::asio's: what the step asks of it is recorded, and what it answers comes as an event.
pub mod Reads
pub mod Receiving
pub mod Delivery
pub mod Sender
pub mod Link
mod Examples
use hsqueue.Base.{
  ℕ, zero, suc, ◌+◌, ◌-◌, ◌%◌, ◌^◌, Bool, true, false, not, ◌&&◌, List, [], ◌∷◌, ◌++◌, Option, none,
  some, ◌==◌, leb, ltb, length, get_or, if◌then◌else◌, add32, codes, Result, ok, err,
  configuration_error, ◌>>=◌,
}
use hsqueue.Message.{
  Message, Memory, get_write_position, set_type, set_timestamp, add_used, multicast_packet,
}
use hsqueue.Steps.Copying.{World, Receiver, send_to}
use hsqueue.Steps.Resources.{Resources, request_message_size}
use hsqueue.Steps.Asio
use hsqueue.Steps.Asio.{AsioStep}

-- What is asked of the socket, with the addresses as numbers.
pub data SocketCall : Type 0 where
  open_socket reuse_address : SocketCall
  bind_to : ℕ → ℕ → SocketCall
  join_group leave_group : ℕ → ℕ → SocketCall
  receive cancel : SocketCall

pub record Parameters : Type 0 where
  pub packet_size : ℕ
  pub group : List ℕ
  pub listen : List ℕ
  pub bind : List ℕ
  pub port : ℕ

-- `reads` counts the reads that are asked for and not answered.
pub record MulticastReceiver : Type 0 where
  pub joined : Bool
  pub canceled : Bool
  pub paused : Bool
  pub stopping : Bool
  pub parameters : Parameters
  pub group_address : ℕ
  pub listen_address : ℕ
  pub bind_address : ℕ
  pub asio : AsioStep
  pub messages_received : ℕ
  pub calls : List SocketCall
  pub reads : ℕ
  pub world : World
  pub out_message : Message

abbrev pub make_parameters : Parameters
make_parameters = record {
  packet_size = 0;
  group = [];
  listen = codes "0.0.0.0";
  bind = codes "0.0.0.0";
  port = 0;
}

abbrev pub make_multicast_receiver : World → Message → MulticastReceiver
make_multicast_receiver world out = record {
  joined = false;
  canceled = false;
  paused = false;
  stopping = false;
  parameters = make_parameters;
  group_address = 0;
  listen_address = 0;
  bind_address = 0;
  asio = Asio.make_asio_step;
  messages_received = 0;
  calls = [];
  reads = 0;
  world = world;
  out_message = out;
}

-- The keys, with the number that the value stands for, if it stands for one, or with its text; the
-- answer of the base class for another key.
pub data Parameter : Type 0 where
  packet_size_key port_key : Option ℕ → Parameter
  group_key listen_key bind_key : List ℕ → Parameter
  other_key : Bool → Parameter

unfoldable pub configure_parameter : Parameter → Parameters → Bool × Parameters
configure_parameter (packet_size_key (some n)) p = (true, record p { packet_size = n })
configure_parameter (port_key (some n)) p = (true, record p { port = n % 2 ^ 16 })
configure_parameter (group_key text) p = (true, record p { group = text })
configure_parameter (listen_key text) p = (true, record p { listen = text })
configure_parameter (bind_key text) p = (true, record p { bind = text })
configure_parameter (other_key base) p = (base, p)
configure_parameter key p = (false, p)

unfoldable pub configure_resources : Parameters → Resources → Resources
configure_resources p r = Asio.configure_message_resources (request_message_size p.packet_size r)

-- `Address::from_string`, which throws where the text is no address.
abbrev pub from_string : (List ℕ → Option ℕ) → List ℕ → Result ℕ
from_string parse text = elim (parse text) [ none ↦ err configuration_error | some a ↦ ok a ]

unfoldable pub validate : (List ℕ → Option ℕ) → MulticastReceiver → Result MulticastReceiver
validate parse s =
    if s.parameters.packet_size == 0
    then err configuration_error
    else from_string parse s.parameters.group >>= λ group.
        from_string parse s.parameters.listen >>= λ listen.
        from_string parse s.parameters.bind >>= λ bind. Asio.validate s.asio >>= λ _.
        ok (record s { group_address = group; listen_address = listen; bind_address = bind })

unfoldable pub start_read : MulticastReceiver → MulticastReceiver
start_read s =
    if s.stopping then s else record s { calls = s.calls ++ receive ∷ []; reads = s.reads + 1 }

unfoldable pub start : MulticastReceiver → MulticastReceiver
unfolding start_read
start s = start_read (record s {
  asio = Asio.start s.asio;
  calls =
      s.calls
      ++ open_socket
        ∷ reuse_address
        ∷ bind_to s.bind_address s.parameters.port
        ∷ join_group s.group_address s.listen_address
        ∷ [];
  joined = true;
})

-- The socket put the packet's bytes where the read told it to.
unfoldable pub store_bytes : ℕ → List ℕ → Memory → Memory
store_bytes target bytes mem a =
    if leb target a && ltb a (target + length bytes) then get_or bytes (a - target) 0 else mem a

abbrev pub sent_on : MulticastReceiver → World × Message → MulticastReceiver
sent_on s (w, out) = start_read (record s { world = w; out_message = out })

-- The message with the bytes that it has; where `addUsed` throws, the step does not read again.
abbrev pub after_add :
    Receiver → MulticastReceiver → Result Message → Result {0} Unit × MulticastReceiver
after_add receiver s (err e) = (err e, s)
after_add receiver s (ok out) = (ok tt, sent_on s (send_to receiver 0 s.world out))

-- `handleReceive` for a packet. A read that is answered is no longer asked for.
unfoldable pub handle_packet :
    Receiver → ℕ → List ℕ → MulticastReceiver → Result {0} Unit × MulticastReceiver
handle_packet receiver now bytes s =
    let mem = store_bytes (get_write_position s.out_message) bytes s.world.memory in
    let out = set_timestamp (set_type s.out_message multicast_packet) now in
    after_add receiver
      (record s {
        reads = s.reads - 1;
        messages_received = add32 s.messages_received 1;
        world = record (s.world) { memory = mem };
        out_message = out;
      })
      (add_used 1 out (length bytes))

-- `handleReceive` for an error, which is only logged, if that.
unfoldable pub handle_error : MulticastReceiver → MulticastReceiver
handle_error s = record s { reads = s.reads - 1 }

unfoldable pub pause : MulticastReceiver → MulticastReceiver
pause s =
    if s.joined
    then record s {
      calls = s.calls ++ leave_group s.group_address s.listen_address ∷ [];
      joined = false;
      paused = true;
    }
    else record s { paused = true }

unfoldable pub resume : MulticastReceiver → MulticastReceiver
resume s = if s.joined then record s { paused = false } else record s {
  calls = s.calls ++ join_group s.group_address s.listen_address ∷ [];
  joined = true;
  paused = false;
}

unfoldable pub stop : MulticastReceiver → MulticastReceiver
stop s = record s { canceled = true; calls = s.calls ++ cancel ∷ []; stopping = true }
