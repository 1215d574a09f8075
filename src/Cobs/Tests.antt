-- ===== src/Cobs/Tests.antt =====
-- A short message with a zero byte in it.
use secure_delta_ota_bootloa.Base.{
  ℕ, ◌<◌, ◌≤◌, ◌↔◌, length, ◌≡◌, refl, some, List, [], ◌∷◌, arith, All,
}
use secure_delta_ota_bootloa.Cobs.{encode, encode_loop, decode}
use secure_delta_ota_bootloa.Cobs.Frames.{IsFrameOf}
use secure_delta_ota_bootloa.Cobs.Reference.{decode_iff}
use secure_delta_ota_bootloa.Cobs.Blocks.{blocks}
use secure_delta_ota_bootloa.Cobs.RoundTrip.{decode-encode}
use secure_delta_ota_bootloa.Cobs.Framing.{IsFrameByte, encode-IsFrameByte, encode_succeeds}

abbrev message : List ℕ
message = 17 ∷ 0 ∷ 34 ∷ []

abbrev frame : List ℕ
frame = 2 ∷ 17 ∷ 2 ∷ 34 ∷ []

message_encoded : encode message 4 ≡ some frame
unfolding encode encode_loop
message_encoded = refl

decode-encode_example : decode frame 3 ≡ some message
decode-encode_example = decode-encode message frame 4 3 message_encoded (omega arith)

encode_succeeds_example : encode message 4 ≡ some (blocks [] message)
encode_succeeds_example = encode_succeeds message 4 (omega arith)

encode-IsFrameByte_example : All IsFrameByte frame
encode-IsFrameByte_example = encode-IsFrameByte message frame 4 (omega arith) message_encoded

decode_iff_example :
    (decode frame 3 ≡ some message)
    ↔ ((0 < length frame) × IsFrameOf frame message × (length message ≤ 3))
decode_iff_example = decode_iff frame 3 message
