-- ===== src/FirmwareContainer/Layout.antt =====
-- shared/src/firmware_container.c: what `FirmwareContainer_Parse` accepts, and what it reports.
use mathlib.Core.Option.{some-injective}
use secure_delta_ota_bootloa.Base.{ℕ, ◌+◌, ◌≡◌, ◌⊎◌, ◌↔◌, ap, sym, refl, ◌∙◌, some, List, arith}
use secure_delta_ota_bootloa.Base.Bytes.{u32}
use secure_delta_ota_bootloa.FirmwareContainer.{
  ContainerInfo, valid, parse, container_header_size, signature_size_value, header_of, extension_of,
}
use secure_delta_ota_bootloa.FirmwareContainer.Accepted.{
  HasFixedFields, HasTarget, NamesBase, parse_container_iff,
}

-- Payload and signature follow the header without a gap, and the signature ends the container.
abbrev pub described : List ℕ → ContainerInfo
described raw =
    let h = header_of raw in
    record {
      header = h;
      extension = extension_of raw;
      payload_offset = container_header_size;
      signature_offset = container_header_size + h.payload_size;
      total_size = container_header_size + h.payload_size + signature_size_value;
    }

abbrev pub IsAcceptable : List ℕ → ℕ → Type 0
IsAcceptable raw artifact_size =
    let h = header_of raw in
    let e = extension_of raw in
    HasFixedFields h e
    × HasTarget h e
    × NamesBase h e
    × ((artifact_size ≡ 0)
        ⊎ (artifact_size ≡ container_header_size + h.payload_size + signature_size_value))

-- The description that a parse computes, with the wraps in its sizes.
parse_info :
    (raw : List ℕ) (artifact_size : ℕ)
    → (parse (some raw) artifact_size).0 ≡ valid
    → let h = header_of raw in
      parse (some raw) artifact_size ≡ (
        valid,
        some (record {
          header = h;
          extension = extension_of raw;
          payload_offset = h.header_size;
          signature_offset = u32 (h.header_size + h.payload_size);
          total_size = u32 (u32 (h.header_size + h.payload_size) + h.signature_size);
        }),
      )
unfolding parse
parse_info raw n accepted = ground arith

parse-described :
    (raw : List ℕ) (artifact_size : ℕ)
    → IsAcceptable raw artifact_size
    → parse (some raw) artifact_size ≡ (valid, some (described raw))
parse-described raw n acceptable =
    let h = header_of raw in
    let (fixed, target, _, _) = acceptable in
    let signature : u32 (h.header_size + h.payload_size) ≡ container_header_size + h.payload_size =
      omega (arith, fixed.size_set, target.payload_max) in
    let total : u32 (u32 (h.header_size + h.payload_size) + h.signature_size)
        ≡ container_header_size + h.payload_size + signature_size_value =
      omega (arith, fixed.size_set, fixed.signature_sized, target.payload_max) in
    parse_info raw n ((parse_container_iff raw n).1 acceptable)
    ∙ rw (total, signature, fixed.size_set) refl

-- A container is accepted, and described as `info`, exactly if its fixed fields are right, among them
-- the product and the hardware revision; it names a key and a version; its payload with header and
-- signature fits the incoming region, and its image the application region at its load address; it names
-- no base at all when its image is full and its payload is the image, or a base that fits the application
-- region when it is a delta; the size of the artifact, where it is given, is that of header, payload and
-- signature; and `info` holds its fields, with payload and signature after the header without a gap.
pub parse_iff :
    (raw : List ℕ) (artifact_size : ℕ) (info : ContainerInfo)
    → (parse (some raw) artifact_size ≡ (valid, some info))
      ↔ (IsAcceptable raw artifact_size × (info ≡ described raw))
parse_iff raw n info = (
  λ accepted.
      let acceptable = (parse_container_iff raw n).0 (ap (λ r. r.0) accepted) in
      (
        acceptable,
        some-injective _ _
            (sym (ap (λ r. r.1) accepted) ∙ ap (λ r. r.1) (parse-described raw n acceptable)),
      ),
  λ (acceptable, same). parse-described raw n acceptable ∙ ap (λ i. (valid, some i)) (sym same),
)
