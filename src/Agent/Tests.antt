-- ===== src/Agent/Tests.antt =====
-- A packet sent and received, byte for byte.
use secure_delta_ota_bootloa.Base.{
  ℕ, zero, suc, ◌-◌, ◌≤◌, ◌+◌, ◌≡◌, refl, false, some, List, [], ◌∷◌, ◌++◌, arith, All, replicate,
  length,
}
use secure_delta_ota_bootloa.Base.Bytes.{IsByte, put_u16_le, put_u32_le, le16, le32}
use secure_delta_ota_bootloa.Crc32.{calculate, update, shift_bits, shift_bit}
use secure_delta_ota_bootloa.Cobs
use secure_delta_ota_bootloa.Packet.{
  Packet, IsPacket, ok, serialize, deserialize, body_bytes, header_bytes, max_raw_size,
  max_encoded_frame,
}
use secure_delta_ota_bootloa.Packet.RoundTrip.{received, deserialize-serialize}
use secure_delta_ota_bootloa.Parser.{Parser, no_event, packet_ready, push_byte}
use secure_delta_ota_bootloa.Parser.Delivery.{empty_parser, IsBounded, push_byte-IsBounded}
use secure_delta_ota_bootloa.Agent.{feed, send_packet}
use secure_delta_ota_bootloa.Agent.Transfer.{transfer, send_packet_succeeds}

-- A packet with three bytes of payload, one of them zero.
abbrev data_packet : Packet
data_packet = record {
  magic = 0xA55A;
  version = 1;
  command = 4;
  update_id = 5;
  offset = 0;
  sequence = 1;
  payload_length = 3;
  payload = 17 ∷ 0 ∷ 34 ∷ replicate 253 0;
  packet_crc32 = 0;
}

zeros-IsByte : (n : ℕ) → All IsByte (replicate n 0)
zeros-IsByte zero = tt
zeros-IsByte (suc n) = (omega arith, zeros-IsByte n)

data_packet-IsPacket : IsPacket data_packet
data_packet-IsPacket = record {
  magic_word = omega arith;
  version_byte = omega arith;
  command_byte = omega arith;
  update_word = omega arith;
  offset_word = omega arith;
  sequence_word = omega arith;
  length_word = omega arith;
  payload_bytes = (omega arith, (omega arith, (omega arith, zeros-IsByte 253)));
  payload_size = refl;
}

packet_code : Unit {0}
unfolding serialize body_bytes header_bytes put_u16_le put_u32_le le16 le32 calculate update
    shift_bits shift_bit send_packet Cobs.encode Cobs.encode_loop
packet_code = tt

abbrev raw_bytes : List ℕ
raw_bytes =
    90 ∷ 165 ∷ 1 ∷ 4 ∷ 5 ∷ 0 ∷ 0 ∷ 0 ∷ 0 ∷ 0 ∷ 0 ∷ 0 ∷ 1 ∷ 0 ∷ 3 ∷ 0 ∷ 17 ∷ 0 ∷ 34 ∷ 231 ∷ 250 ∷ 195
    ∷ 167 ∷ []

abbrev wire_bytes : List ℕ
wire_bytes =
    6 ∷ 90 ∷ 165 ∷ 1 ∷ 4 ∷ 5 ∷ 1 ∷ 1 ∷ 1 ∷ 1 ∷ 1 ∷ 1 ∷ 2 ∷ 1 ∷ 2 ∷ 3 ∷ 2 ∷ 17 ∷ 6 ∷ 34 ∷ 231 ∷ 250
    ∷ 195 ∷ 167 ∷ 0 ∷ []

data_packet_serialized : serialize data_packet max_raw_size ≡ some raw_bytes
unfolding packet_code
data_packet_serialized = refl

data_packet_sent : send_packet data_packet ≡ some wire_bytes
unfolding packet_code
data_packet_sent = refl

deserialize-serialize_example :
    deserialize raw_bytes data_packet ≡ (ok, received data_packet data_packet)
deserialize-serialize_example =
    deserialize-serialize data_packet data_packet data_packet-IsPacket refl refl raw_bytes
      max_raw_size data_packet_serialized

send_packet_succeeds_example :
    (wire : List ℕ) × (send_packet data_packet ≡ some wire) × (length wire ≤ max_encoded_frame + 1)
send_packet_succeeds_example = send_packet_succeeds data_packet data_packet-IsPacket (omega arith)

-- The parser has half a frame in its buffer when the packet comes.
abbrev interrupted_parser : Parser
interrupted_parser = record { encoded = 9 ∷ 9 ∷ []; overflowed = false }

transfer_example :
    let before = feed interrupted_parser ((7 ∷ []) ++ (0 ∷ [])) data_packet in
    feed before.parser wire_bytes before.packet ≡ record {
      events = replicate (length wire_bytes - 1) no_event ++ (packet_ready ∷ []);
      parser = empty_parser;
      packet = received data_packet before.packet;
    }
transfer_example =
    transfer data_packet wire_bytes interrupted_parser (7 ∷ []) data_packet data_packet-IsPacket
      refl refl data_packet_sent

abbrev full_parser : Parser
full_parser = record { encoded = replicate 320 1; overflowed = false }

push_byte-IsBounded_example : IsBounded (push_byte full_parser 5 data_packet).parser
push_byte-IsBounded_example = push_byte-IsBounded full_parser 5 data_packet (omega arith)
