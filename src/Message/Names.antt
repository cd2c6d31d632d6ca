-- ===== src/Message/Names.antt =====
-- The names of the message types: `typeName` of src/HighQueue/Message.hpp, which streams write, and
-- `toText` of Message.cpp.
use hsqueue.Base.{ℕ, List, codes}
use hsqueue.Message.{
  MessageType, unused, shutdown, heartbeat, multicast_packet, gap, mock_message, local_type0,
  local_type1, local_type2, local_type3, local_type4, local_type5, local_type6, local_type7,
  extra_type_base,
}

abbrev pub type_name : MessageType → List ℕ
type_name unused = codes "Unused"
type_name shutdown = codes "Shutdown"
type_name heartbeat = codes "Heartbeat"
type_name multicast_packet = codes "MulticastPacket"
type_name gap = codes "Gap"
type_name mock_message = codes "MockMessage"
type_name local_type0 = codes "LocalType0"
type_name local_type1 = codes "LocalType1"
type_name local_type2 = codes "LocalType2"
type_name local_type3 = codes "LocalType3"
type_name local_type4 = codes "LocalType4"
type_name local_type5 = codes "LocalType5"
type_name local_type6 = codes "LocalType6"
type_name local_type7 = codes "LocalType7"
type_name extra_type_base = codes "ApplicationDefinedType"

-- The test before the table is read is a comma, so it is always passed.
abbrev pub to_text : MessageType → List ℕ
to_text unused = codes "Unused"
to_text shutdown = codes "Shutdown"
to_text heartbeat = codes "Heartbeat"
to_text multicast_packet = codes "MulticastPacket"
to_text gap = codes "Gap"
to_text mock_message = codes "MockMessage"
to_text local_type0 = codes "LocalType0"
to_text local_type1 = codes "LocalType1"
to_text local_type2 = codes "LocalType2"
to_text local_type3 = codes "LocalType3"
to_text local_type4 = codes "LocalType4"
to_text local_type5 = codes "LocalType5"
to_text local_type6 = codes "LocalType6"
to_text local_type7 = codes "LocalType7"
to_text extra_type_base = codes "ExtraTypeBase"
