-- ===== src/Packet.antt =====
-- node-stm32f103/application/protocol/ota_packet.c and shared/include/ota_protocol.h. A packet's
-- payload is its whole 256-byte buffer; a function that fills a packet in place takes and returns it.
pub mod RoundTrip
use secure_delta_ota_bootloa.Base.{
  ℕ, ◌+◌, ◌*◌, Bool, true, false, Option, none, some, List, [], ◌∷◌, ◌++◌, ltb, ◌==◌, ◌!=◌,
  if◌then◌else◌, length, take, drop, All, ◌<◌, ◌≤◌, ◌≡◌,
}
use secure_delta_ota_bootloa.Base.Bytes.{
  u8, IsByte, IsU16, IsU32, byte_at, put_u16_le, put_u32_le, get_u16_le, get_u32_le,
}
use secure_delta_ota_bootloa.Crc32.{calculate}

abbrev pub packet_magic : ℕ
packet_magic = 0xA55A

abbrev pub protocol_version : ℕ
protocol_version = 1

abbrev pub max_payload_size : ℕ
max_payload_size = 256

abbrev pub header_size : ℕ
header_size = 16

abbrev pub crc_size : ℕ
crc_size = 4

abbrev pub max_raw_size : ℕ
max_raw_size = header_size + max_payload_size + crc_size

abbrev pub max_encoded_frame : ℕ
max_encoded_frame = 320

pub record Packet : Type 0 where
  pub magic : ℕ
  pub version : ℕ
  pub command : ℕ
  pub update_id : ℕ
  pub offset : ℕ
  pub sequence : ℕ
  pub payload_length : ℕ
  pub payload : List ℕ
  pub packet_crc32 : ℕ

pub data PacketStatus : Type 0 where
  ok invalid_argument too_short bad_magic bad_version bad_length bad_crc : PacketStatus

-- The declared widths of the fields, and the size of the payload buffer.
pub record IsPacket (p : Packet) : Type 0 where
  pub magic_word : IsU16 p.magic
  pub version_byte : IsByte p.version
  pub command_byte : IsByte p.command
  pub update_word : IsU32 p.update_id
  pub offset_word : IsU32 p.offset
  pub sequence_word : IsU16 p.sequence
  pub length_word : IsU16 p.payload_length
  pub payload_bytes : All IsByte p.payload
  pub payload_size : length p.payload ≡ max_payload_size

unfoldable pub header_bytes : Packet → List ℕ
unfolding put_u16_le put_u32_le
header_bytes p =
    put_u16_le p.magic
    ++ (p.version
        ∷ p.command
        ∷ (put_u32_le p.update_id
            ++ (put_u32_le p.offset ++ (put_u16_le p.sequence ++ put_u16_le p.payload_length))))

-- The bytes that the CRC covers.
unfoldable pub body_bytes : Packet → List ℕ
unfolding header_bytes
body_bytes p = header_bytes p ++ take p.payload_length p.payload

unfoldable pub serialize : Packet → ℕ → Option (List ℕ)
serialize p raw_capacity =
    if ltb max_payload_size p.payload_length
    then none
    else if ltb raw_capacity (header_size + p.payload_length + crc_size)
    then none
    else some (body_bytes p ++ put_u32_le (calculate (body_bytes p)))

-- A copy over the start of a buffer.
abbrev pub overwrite : List ℕ → List ℕ → List ℕ
overwrite buffer bytes = bytes ++ drop (length bytes) buffer

unfoldable pub read_header : List ℕ → Packet → Packet
unfolding get_u16_le get_u32_le
read_header raw p = record p {
  magic = get_u16_le raw 0;
  version = byte_at raw 2;
  command = byte_at raw 3;
  update_id = get_u32_le raw 4;
  offset = get_u32_le raw 8;
  sequence = get_u16_le raw 12;
  payload_length = get_u16_le raw 14;
}

unfoldable pub read_payload : List ℕ → Packet → Packet
unfolding get_u32_le
read_payload raw p = record p {
  payload = overwrite p.payload (take p.payload_length (drop header_size raw));
  packet_crc32 = get_u32_le raw (header_size + p.payload_length);
}

-- The length of `raw` is `raw_length`. On an error the packet holds what was read so far.
unfoldable pub deserialize : List ℕ → Packet → PacketStatus × Packet
deserialize raw packet =
    let headed = read_header raw packet in
    let filled = read_payload raw headed in
    if ltb (length raw) (header_size + crc_size)
    then (too_short, packet)
    else if headed.magic != packet_magic
    then (bad_magic, headed)
    else if headed.version != protocol_version
    then (bad_version, headed)
    else if ltb max_payload_size headed.payload_length
    then (bad_length, headed)
    else if length raw != header_size + headed.payload_length + crc_size
    then (bad_length, headed)
    else if filled.packet_crc32 != calculate (take (header_size + headed.payload_length) raw)
    then (bad_crc, filled)
    else (ok, filled)
