-- ===== src/Parser/Delivery.antt =====
-- node-stm32f103/application/protocol/ota_parser.c: the states of the parser, byte by byte.
use secure_delta_ota_bootloa.Base.{
  ℕ, ◌≤◌, ◌<◌, ◌≡◌, ◌≢◌, refl, false, Option, none, some, List, [], ◌∷◌, ◌++◌, arith, ◌==◌, length,
  length-append,
}
use secure_delta_ota_bootloa.Cobs
use secure_delta_ota_bootloa.Packet.{Packet, ok, deserialize, max_encoded_frame, max_raw_size}
use secure_delta_ota_bootloa.Parser.{Parser, no_event, packet_ready, finish_frame, push_byte}

abbrev pub empty_parser : Parser
empty_parser = record { encoded = []; overflowed = false }

abbrev pub collecting : List ℕ → Parser
collecting bytes = record { encoded = bytes; overflowed = false }

abbrev pub IsBounded : Parser → Type 0
IsBounded parser = length parser.encoded ≤ max_encoded_frame

finish_frame-empty :
    (raw : Option (List ℕ)) (parser : Parser) (packet : Packet)
    → (finish_frame raw parser packet).parser ≡ empty_parser
unfolding finish_frame
finish_frame-empty none parser packet = refl
finish_frame-empty (some raw) parser packet = refl

-- No byte makes the parser write past its 320-byte buffer.
pub push_byte-IsBounded :
    (parser : Parser) (byte : ℕ) (packet : Packet)
    → IsBounded parser
    → IsBounded (push_byte parser byte packet).parser
unfolding push_byte
push_byte-IsBounded parser byte packet h = ground (
  arith,
  length-append parser.encoded (byte ∷ []),
  finish_frame-empty (Cobs.decode parser.encoded max_raw_size) parser packet,
)

empty_of_length :
    (parser : Parser)
    → length parser.encoded ≡ 0
    → parser.overflowed ≡ false
    → parser ≡ empty_parser
empty_of_length parser e o = ground arith

-- After a zero byte the parser is empty, whatever it had collected.
pub push_byte_zero :
    (parser : Parser) (packet : Packet) → (push_byte parser 0 packet).parser ≡ empty_parser
unfolding push_byte
push_byte_zero parser packet = ground (
  arith,
  empty_of_length parser,
  finish_frame-empty (Cobs.decode parser.encoded max_raw_size) parser packet,
)

pub push_byte_collect :
    (bytes : List ℕ) (byte : ℕ) (packet : Packet)
    → byte ≢ 0
    → length bytes < max_encoded_frame
    → push_byte (collecting bytes) byte packet
      ≡ record { event = no_event; parser = collecting (bytes ++ (byte ∷ [])); packet = packet }
unfolding push_byte
push_byte_collect bytes byte packet ne room = ground arith

-- The delimiter behind a frame that decodes and deserializes.
pub push_byte_deliver :
    (frame raw : List ℕ) (old new : Packet)
    → 0 < length frame
    → Cobs.decode frame max_raw_size ≡ some raw
    → deserialize raw old ≡ (ok, new)
    → push_byte (collecting frame) 0 old
      ≡ record { event = packet_ready; parser = empty_parser; packet = new }
unfolding push_byte
push_byte_deliver frame raw old new long decoded accepted = nonempty (frame_length frame long)
  where
    frame_length : (f : List ℕ) → 0 < length f → (length f == 0) ≡ false
    frame_length f h = ground arith

    nonempty :
        (length frame == 0) ≡ false
        → push_byte (collecting frame) 0 old
          ≡ record { event = packet_ready; parser = empty_parser; packet = new }
    nonempty e = rw (e, decoded) (unfold finish_frame in rw accepted)
