-- ===== src/Parser.antt =====
-- node-stm32f103/application/protocol/ota_parser.c: frames are collected up to a zero byte and
-- decoded. `encoded` holds the first `encoded_length` bytes of the parser's buffer.
pub mod Delivery
use secure_delta_ota_bootloa.Base.{
  ℕ, ◌+◌, Bool, true, false, not, ◌&&◌, Option, none, some, List, [], ◌∷◌, ◌++◌, leb, ◌==◌, ◌!=◌,
  if◌then◌else◌, length,
}
use secure_delta_ota_bootloa.Cobs
use secure_delta_ota_bootloa.Packet.{
  Packet, PacketStatus, ok, bad_crc, deserialize, max_encoded_frame, max_raw_size,
}

pub record Parser : Type 0 where
  pub encoded : List ℕ
  pub overflowed : Bool

pub data Event : Type 0 where
  no_event packet_ready invalid_frame packet_crc_error : Event

unfoldable pub reset : Parser → Parser
reset parser = record { encoded = []; overflowed = false }

-- `encoded` and `overflowed` are all that is set, so the initial contents do not matter.
unfoldable pub init : Parser → Parser
unfolding reset
init parser = reset parser

abbrev pub event_of : PacketStatus → Event
event_of ok = packet_ready
event_of bad_crc = packet_crc_error
event_of _ = invalid_frame

pub record Pushed : Type 0 where
  pub event : Event
  pub parser : Parser
  pub packet : Packet

-- The end of a frame: `raw` is what `Cobs_Decode` left in a buffer of `max_raw_size` bytes.
unfoldable pub finish_frame : Option (List ℕ) → Parser → Packet → Pushed
unfolding reset
finish_frame none parser packet = record {
  event = invalid_frame;
  parser = reset parser;
  packet = packet;
}
finish_frame (some raw) parser packet =
    let (status, filled) = deserialize raw packet in
    record { event = event_of status; parser = reset parser; packet = filled }

unfoldable pub push_byte : Parser → ℕ → Packet → Pushed
unfolding reset
push_byte parser byte packet =
    if byte != 0
    then if parser.overflowed
      then record { event = no_event; parser = parser; packet = packet }
      else if leb max_encoded_frame (length parser.encoded)
      then record {
        event = no_event;
        parser = record parser { overflowed = true };
        packet = packet;
      }
      else record {
        event = no_event;
        parser = record parser { encoded = parser.encoded ++ (byte ∷ []) };
        packet = packet;
      }
    else if length parser.encoded == 0 && not parser.overflowed
    then record { event = no_event; parser = parser; packet = packet }
    else if parser.overflowed
    then record { event = invalid_frame; parser = reset parser; packet = packet }
    else finish_frame (Cobs.decode parser.encoded max_raw_size) parser packet
