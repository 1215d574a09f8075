-- ===== src/Agent/Transfer.antt =====
-- node-stm32f103/application/src/ota_agent.c and node-stm32f103/application/protocol: from one
-- side's `SendPacket` to the other side's parser.
use mathlib.Core.List.{append_assoc, append-nil}
use secure_delta_ota_bootloa.Base.{
  ℕ, ◌+◌, ◌-◌, ◌≤◌, ◌≡◌, refl, some, List, [], ◌∷◌, ◌++◌, arith, length, All, length-append,
  replicate, Option-cases, inl, inr, All-append,
}
use secure_delta_ota_bootloa.Base.Bytes.{IsByte, put_u32_le}
use secure_delta_ota_bootloa.Crc32.{calculate}
use secure_delta_ota_bootloa.Cobs
use secure_delta_ota_bootloa.Cobs.Blocks.{blocks, length-blocks}
use secure_delta_ota_bootloa.Cobs.RoundTrip.{decode-encode, encode-some}
use secure_delta_ota_bootloa.Cobs.Framing.{
  IsFrameByte, encode-IsFrameByte, encode_succeeds, length-blocks_le,
}
use secure_delta_ota_bootloa.Packet.{
  Packet, IsPacket, serialize, body_bytes, max_raw_size, max_encoded_frame, max_payload_size,
  packet_magic, protocol_version,
}
use secure_delta_ota_bootloa.Packet.RoundTrip.{
  received, deserialize-serialize, serialize-some, length-body_bytes, body_bytes-IsByte,
}
use secure_delta_ota_bootloa.Parser.{Parser, no_event, packet_ready, push_byte}
use secure_delta_ota_bootloa.Parser.Delivery.{
  empty_parser, collecting, push_byte_zero, push_byte_collect, push_byte_deliver,
}
use secure_delta_ota_bootloa.Agent.{feed, send_packet}

-- Feeding goes on from where it stopped.
feed-append :
    (parser : Parser) (xs ys : List ℕ) (packet : Packet)
    → feed parser (xs ++ ys) packet ≡ (
        let first = feed parser xs packet in
        let later = feed first.parser ys first.packet in
        record later { events = first.events ++ later.events })
unfolding feed
feed-append parser [] ys packet = refl
feed-append parser (x ∷ xs) ys packet =
    let pushed = push_byte parser x packet in rw (feed-append pushed.parser xs ys pushed.packet)

feed_collect :
    (bytes frame : List ℕ) (packet : Packet)
    → All IsFrameByte frame
    → length bytes + length frame ≤ max_encoded_frame
    → feed (collecting bytes) frame packet ≡ record {
      events = replicate (length frame) no_event;
      parser = collecting (bytes ++ frame);
      packet = packet;
    }
unfolding feed
feed_collect bytes [] packet h room = rw append-nil
feed_collect bytes (b ∷ frame) packet h room =
    rw
      (
        push_byte_collect bytes b packet h.0.0 (omega arith),
        feed_collect (bytes ++ (b ∷ [])) frame packet h.1
            (omega (arith, length-append bytes (b ∷ []))),
        append_assoc bytes (b ∷ []) frame,
      )
      refl

feed_empty :
    (parser : Parser) (noise : List ℕ) (old : Packet)
    → (feed parser (noise ++ (0 ∷ [])) old).parser ≡ empty_parser
feed_empty parser noise old =
    let before = feed parser noise old in
    rw (feed-append parser noise (0 ∷ []) old)
      (unfold feed in push_byte_zero before.parser before.packet)

-- The bytes that `send_packet` produced, taken apart.
record Sent (p : Packet) (wire : List ℕ) : Type 0 where
  raw : List ℕ
  frame : List ℕ
  serialized : serialize p max_raw_size ≡ some raw
  encoded : Cobs.encode raw max_encoded_frame ≡ some frame
  delimited : wire ≡ frame ++ (0 ∷ [])

sent : (p : Packet) (wire : List ℕ) → send_packet p ≡ some wire → Sent p wire
unfolding send_packet
sent p wire h = elim (Option-cases (serialize p max_raw_size)) [
  | inl e ↦ absurd (cc (rw e at h))
  | inr (raw, e) ↦ elim (Option-cases (Cobs.encode raw max_encoded_frame)) [
    | inl e' ↦ absurd (ground arith)
    | inr (frame, e') ↦ record {
      raw = raw;
      frame = frame;
      serialized = e;
      encoded = e';
      delimited = ground arith;
    }
  ]
]

put_u32_le-IsByte : (v : ℕ) → All IsByte (put_u32_le v)
unfolding put_u32_le
put_u32_le-IsByte v = omega arith

length-put_u32_le : (v : ℕ) → length (put_u32_le v) ≡ 4
unfolding put_u32_le
length-put_u32_le v = refl

serialized-bytes :
    (p : Packet) (raw : List ℕ)
    → IsPacket p
    → serialize p max_raw_size ≡ some raw
    → All IsByte raw × (length raw ≡ p.payload_length + 20) × (p.payload_length ≤ max_payload_size)
serialized-bytes p raw h e =
    let (small, raw_eq) = serialize-some p raw max_raw_size e in
    let crc = calculate (body_bytes p) in
    (
      rw raw_eq (
          All-append IsByte (body_bytes p) (put_u32_le crc) (body_bytes-IsByte p h)
            (put_u32_le-IsByte crc)),
      rw raw_eq (
          omega (
            arith,
            length-append (body_bytes p) (put_u32_le crc),
            length-put_u32_le crc,
            length-body_bytes p h small,
          )),
      small,
    )

blocks_fit : (raw : List ℕ) → length raw ≤ max_raw_size → length (blocks [] raw) ≤ 278
blocks_fit raw room =
    omega (arith, length-blocks_le [] raw (length raw) (omega arith) (omega arith))

-- Every packet within its payload limit can be sent, and its frame fits the parser's buffer.
pub send_packet_succeeds :
    (p : Packet)
    → IsPacket p
    → p.payload_length ≤ max_payload_size
    → (wire : List ℕ) × (send_packet p ≡ some wire) × (length wire ≤ max_encoded_frame + 1)
send_packet_succeeds p h small =
    let raw = body_bytes p ++ put_u32_le (calculate (body_bytes p)) in
    let e : serialize p max_raw_size ≡ some raw = unfold serialize in ground arith in
    let (bytes, size, _) = serialized-bytes p raw h e in
    let encoded = encode_succeeds raw max_encoded_frame (omega arith) in
    (
      blocks [] raw ++ (0 ∷ []),
      unfold send_packet in rw (e, encoded),
      omega (arith, length-append (blocks [] raw) (0 ∷ []), blocks_fit raw (omega arith)),
    )

-- The frame of a packet, fed to an empty parser with its delimiter.
deliver :
    (p : Packet) (raw frame : List ℕ) (old : Packet)
    → IsPacket p
    → p.magic ≡ packet_magic
    → p.version ≡ protocol_version
    → serialize p max_raw_size ≡ some raw
    → Cobs.encode raw max_encoded_frame ≡ some frame
    → feed empty_parser (frame ++ (0 ∷ [])) old ≡ record {
      events = replicate (length (frame ++ (0 ∷ [])) - 1) no_event ++ (packet_ready ∷ []);
      parser = empty_parser;
      packet = received p old;
    }
deliver p raw frame old h magic version serialized encoded =
    let (bytes, size, small) = serialized-bytes p raw h serialized in
    let frame_eq = encode-some raw frame max_encoded_frame encoded in
    let fits : length frame ≤ 278 = rw (← frame_eq) (blocks_fit raw (omega arith)) in
    let decoded = decode-encode raw frame max_encoded_frame max_raw_size encoded (omega arith) in
    let count : length (frame ++ (0 ∷ [])) - 1 ≡ length frame =
      omega (arith, length-append frame (0 ∷ [])) in
    let last =
      push_byte_deliver frame raw old (received p old)
        (rw (← frame_eq) (omega (arith, length-blocks [] raw))) decoded
        (deserialize-serialize p old h magic version raw max_raw_size serialized) in
    rw
      (
        count,
        feed-append empty_parser frame (0 ∷ []) old,
        feed_collect [] frame old (encode-IsFrameByte raw frame max_encoded_frame bytes encoded)
            (omega arith),
      )
      (unfold feed in rw last)

-- The bytes that SendPacket writes for a packet of this protocol, fed to the OtaParser of the same
-- firmware, give that packet, whatever bytes and whatever parser state came before, once a delimiter
-- was read: every byte before the last gives no event, the last one gives the packet, and the parser is
-- empty again.
pub transfer :
    (p : Packet) (wire : List ℕ) (parser : Parser) (noise : List ℕ) (old : Packet)
    → IsPacket p
    → p.magic ≡ packet_magic
    → p.version ≡ protocol_version
    → send_packet p ≡ some wire
    → let before = feed parser (noise ++ (0 ∷ [])) old in
      feed before.parser wire before.packet ≡ record {
        events = replicate (length wire - 1) no_event ++ (packet_ready ∷ []);
        parser = empty_parser;
        packet = received p before.packet;
      }
transfer p wire parser noise old h magic version e =
    let s = sent p wire e in
    let before = feed parser (noise ++ (0 ∷ [])) old in
    rw (feed_empty parser noise old, s.delimited)
      (deliver p s.raw s.frame before.packet h magic version s.serialized s.encoded)
