-- ===== src/Packet/RoundTrip.antt =====
-- node-stm32f103/application/protocol/ota_packet.c: serializing, then deserializing.
use secure_delta_ota_bootloa.Base.{
  ℕ, ◌+◌, ◌≤◌, ◌≡◌, refl, subst, some, List, ◌++◌, arith, length, All, length-append, length-take,
  take, drop, take-append, All-append, All-take,
}
use mathlib.Core.List.{append_assoc}
use secure_delta_ota_bootloa.Base.Bytes.{
  IsByte, put_u32_le, get_u32_le, le16-put, le32-put, get_u32_le-append,
}
use secure_delta_ota_bootloa.Crc32.{calculate}
use secure_delta_ota_bootloa.Crc32.Laws.{calculate-IsU32}
use secure_delta_ota_bootloa.Packet.{
  Packet, IsPacket, ok, header_bytes, body_bytes, serialize, overwrite, read_header, read_payload,
  deserialize, max_payload_size, header_size, crc_size, packet_magic, protocol_version,
}

header_bytes-IsByte : (p : Packet) → IsPacket p → All IsByte (header_bytes p)
unfolding header_bytes
header_bytes-IsByte p h = omega arith

pub body_bytes-IsByte : (p : Packet) → IsPacket p → All IsByte (body_bytes p)
unfolding body_bytes
body_bytes-IsByte p h =
    All-append IsByte (header_bytes p) (take p.payload_length p.payload) (header_bytes-IsByte p h)
      (All-take IsByte p.payload_length p.payload h.payload_bytes)

pub length-body_bytes :
    (p : Packet)
    → IsPacket p
    → p.payload_length ≤ max_payload_size
    → length (body_bytes p) ≡ header_size + p.payload_length
unfolding body_bytes header_bytes
length-body_bytes p h small = omega (arith, length-take p.payload_length p.payload, h.payload_size)

-- The fields in front of any payload are read back.
read-header_bytes :
    (p old : Packet) (rest : List ℕ)
    → IsPacket p
    → read_header (header_bytes p ++ rest) old
      ≡ record p { payload = old.payload; packet_crc32 = old.packet_crc32 }
unfolding read_header header_bytes
read-header_bytes p old rest h =
    rw
      (
        le16-put p.magic h.magic_word,
        le32-put p.update_id h.update_word,
        le32-put p.offset h.offset_word,
        le16-put p.sequence h.sequence_word,
        le16-put p.payload_length h.length_word,
      )
      refl

-- The checks of the deserializer, passed one after the other.
pub deserialize_accepts :
    (raw : List ℕ) (old headed filled : Packet)
    → read_header raw old ≡ headed
    → read_payload raw headed ≡ filled
    → headed.magic ≡ packet_magic
    → headed.version ≡ protocol_version
    → headed.payload_length ≤ max_payload_size
    → length raw ≡ header_size + headed.payload_length + crc_size
    → filled.packet_crc32 ≡ calculate (take (header_size + headed.payload_length) raw)
    → deserialize raw old ≡ (ok, filled)
unfolding deserialize
deserialize_accepts raw old headed filled e f magic version small size crc =
    rw (e, f) (ground arith)

pub serialize-some :
    (p : Packet) (raw : List ℕ) (capacity : ℕ)
    → serialize p capacity ≡ some raw
    → (p.payload_length ≤ max_payload_size)
      × (raw ≡ body_bytes p ++ put_u32_le (calculate (body_bytes p)))
unfolding serialize
serialize-some p raw capacity sent = ground arith

module _ (p : Packet) (h : IsPacket p) (small : p.payload_length ≤ max_payload_size) where
  crc : ℕ
  crc = calculate (body_bytes p)

  part : List ℕ
  part = take p.payload_length p.payload

  raw_bytes : List ℕ
  raw_bytes = body_bytes p ++ put_u32_le crc

  raw-header : raw_bytes ≡ header_bytes p ++ (part ++ put_u32_le crc)
  unfolding raw_bytes body_bytes part
  raw-header = append_assoc (header_bytes p) (take p.payload_length p.payload) (put_u32_le crc)

  length-part : length part ≡ p.payload_length
  unfolding part
  length-part = omega (arith, length-take p.payload_length p.payload, h.payload_size)

  payload_read : take p.payload_length (drop header_size raw_bytes) ≡ part
  payload_read = rw raw-header (
      unfold header_bytes in
      subst (λ n. take n (part ++ put_u32_le crc) ≡ part) length-part
        (take-append part (put_u32_le crc)))

  crc_read : get_u32_le raw_bytes (header_size + p.payload_length) ≡ crc
  unfolding raw_bytes crc
  crc_read =
      subst
        (λ n.
          get_u32_le (body_bytes p ++ put_u32_le (calculate (body_bytes p))) n
          ≡ calculate (body_bytes p))
        (length-body_bytes p h small)
        (get_u32_le-append (body_bytes p) (calculate (body_bytes p))
          (calculate-IsU32 (body_bytes p) (body_bytes-IsByte p h)))

  body_read : take (header_size + p.payload_length) raw_bytes ≡ body_bytes p
  unfolding raw_bytes
  body_read =
      subst (λ n. take n (body_bytes p ++ put_u32_le crc) ≡ body_bytes p)
        (length-body_bytes p h small) (take-append (body_bytes p) (put_u32_le crc))

  length-raw_bytes : length raw_bytes ≡ header_size + p.payload_length + crc_size
  unfolding raw_bytes put_u32_le
  length-raw_bytes =
      omega (arith, length-append (body_bytes p) (put_u32_le crc), length-body_bytes p h small)

-- What a receiver whose packet buffer was `old` holds after `p` was sent: the payload is written
-- over the start of the old one.
unfoldable pub received : Packet → Packet → Packet
received p old = record p {
  payload = overwrite old.payload (take p.payload_length p.payload);
  packet_crc32 = calculate (body_bytes p);
}

module _ (p old : Packet) (h : IsPacket p) (magic_ok : p.magic ≡ packet_magic)
    (version_ok : p.version ≡ protocol_version) where
  deserialize-raw_bytes :
      (small : p.payload_length ≤ max_payload_size)
      → deserialize (raw_bytes p h small) old ≡ (ok, received p old)
  deserialize-raw_bytes small =
      let headed = record p { payload = old.payload; packet_crc32 = old.packet_crc32 } in
      deserialize_accepts (raw_bytes p h small) old headed (received p old)
        (rw raw-header (read-header_bytes p old (part p h small ++ put_u32_le (crc p h small)) h))
        (unfold read_payload received in
          rw (payload_read p h small, crc_read p h small) (unfold part crc in refl))
        magic_ok version_ok small (length-raw_bytes p h small)
        (rw (body_read p h small) (unfold received in refl))

  -- Deserializing the bytes of a packet of this protocol succeeds and gives its fields, its
  -- payload over the start of the receiver's buffer, and its checksum.
  pub deserialize-serialize :
      (raw : List ℕ) (capacity : ℕ)
      → serialize p capacity ≡ some raw
      → deserialize raw old ≡ (ok, received p old)
  deserialize-serialize raw capacity sent =
      let (small, e) = serialize-some p raw capacity sent in
      rw e (unfold raw_bytes crc in deserialize-raw_bytes small)
