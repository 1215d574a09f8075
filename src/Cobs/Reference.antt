-- ===== src/Cobs/Reference.antt =====
-- node-stm32f103/application/protocol/cobs.c: which frames `Cobs_Decode` accepts, and as which bytes.
use mathlib.Core.Option.{some-injective}
use mathlib.Core.List.{append_assoc, append-nil}
use secure_delta_ota_bootloa.Base.{
  ℕ, zero, suc, ◌+◌, ◌-◌, ◌≤◌, ◌<◌, ◌≡◌, ◌≢◌, ◌⊎◌, ◌↔◌, inl, inr, refl, ap, sym, ◌∙◌, subst, some,
  List, [], ◌∷◌, ◌++◌, arith, ◌==◌, length, take, drop, Bool-cases, length-append, length-take,
  take-append-drop,
}
use secure_delta_ota_bootloa.Cobs.{decode, decode_loop}
use secure_delta_ota_bootloa.Cobs.Frames.{
  IsFrameOf, at_end, last_block, zero_block, full_block, decode_loop-frame,
}

-- What a loop that returns bytes has read and appended.
record HasDecoded (frame output result : List ℕ) (capacity : ℕ) : Type 0 where
  payload : List ℕ
  framed : IsFrameOf frame payload
  appended : result ≡ output ++ payload
  fits : length result ≤ capacity

-- A round that does not fail: it ends a block with a zero, or without one.
round_ok :
    (fuel code : ℕ) (input : List ℕ) (capacity : ℕ) (output result : List ℕ)
    → decode_loop (suc fuel) (code ∷ input) capacity output ≡ some result
    → let block = take (code - 1) input in
      let rest = drop (code - 1) input in
      (code ≢ 0)
      × (code - 1 ≤ length input)
      × (code - 1 ≤ capacity - length output)
      × (((code ≢ 0xFF)
            × (0 < length rest)
            × (length (output ++ block) < capacity)
            × (decode_loop fuel rest capacity ((output ++ block) ++ (0 ∷ [])) ≡ some result))
          ⊎ (((code ≡ 0xFF) ⊎ (length rest ≡ 0))
              × (decode_loop fuel rest capacity (output ++ block) ≡ some result)))
unfolding decode_loop
round_ok fuel code input capacity output result e = ground arith

code_of :
    (code : ℕ) (input : List ℕ)
    → code ≢ 0
    → code - 1 ≤ length input
    → length (take (code - 1) input) + 1 ≡ code
code_of code input nonzero inside = omega (arith, length-take (code - 1) input)

-- The block that a round reads, and the frame that it leaves.
split_frame :
    (code : ℕ) (input : List ℕ)
    → code ≢ 0
    → code - 1 ≤ length input
    → (length (take (code - 1) input) + 1) ∷ (take (code - 1) input ++ drop (code - 1) input)
      ≡ code ∷ input
split_frame code input nonzero inside =
    rw (code_of code input nonzero inside, take-append-drop (code - 1) input) refl

nil_of : (xs : List ℕ) → length xs ≡ 0 → xs ≡ []
nil_of [] h = refl
nil_of (x ∷ xs) h = absurd (omega arith)

no_fuel :
    (frame : List ℕ) (capacity : ℕ) (output result : List ℕ)
    → decode_loop zero frame capacity output ≢ some result
unfolding decode_loop
no_fuel frame capacity output result e = cc

-- A loop at the end of its input returns what it has.
nothing_left :
    (fuel : ℕ) (frame : List ℕ) (capacity : ℕ) (output result : List ℕ)
    → length frame ≡ 0
    → decode_loop fuel frame capacity output ≡ some result
    → output ≡ result
unfolding decode_loop
nothing_left zero frame capacity output result h e = absurd (cc)
nothing_left (suc fuel) [] capacity output result h e = some-injective _ _ e
nothing_left (suc fuel) (x ∷ frame) capacity output result h e = absurd (omega arith)

decode_loop-HasDecoded :
    (fuel : ℕ) (frame : List ℕ) (capacity : ℕ) (output result : List ℕ)
    → length output ≤ capacity
    → decode_loop fuel frame capacity output ≡ some result
    → HasDecoded frame output result capacity
decode_loop-HasDecoded zero frame capacity output result room e =
    absurd (no_fuel frame capacity output result e)
decode_loop-HasDecoded (suc fuel) [] capacity output result room e =
    let same : output ≡ result = some-injective _ _ (unfold decode_loop in e) in
    record {
      payload = [];
      framed = at_end;
      appended = sym same ∙ sym (append-nil output);
      fits = subst (λ r. length r ≤ capacity) same room;
    }
decode_loop-HasDecoded (suc fuel) (code ∷ input) capacity output result room e =
    let block = take (code - 1) input in
    let rest = drop (code - 1) input in
    let (nonzero, inside, small, ended) = round_ok fuel code input capacity output result e in
    let split = split_frame code input nonzero inside in
    let size = code_of code input nonzero inside in
    let grown = length-append output block in
    elim ended [
      | inl (short, more, free, e') ↦
          let next =
            decode_loop-HasDecoded fuel rest capacity ((output ++ block) ++ (0 ∷ [])) result
              (omega (arith, free, length-append (output ++ block) (0 ∷ []))) e' in
          record {
            payload = block ++ (0 ∷ next.payload);
            framed =
                subst (λ f. IsFrameOf f (block ++ (0 ∷ next.payload))) split
                  (zero_block block rest next.payload (λ q. short (omega (arith, q, size))) more
                    next.framed);
            appended =
                next.appended
                ∙ append_assoc (output ++ block) (0 ∷ []) next.payload
                ∙ append_assoc output block (0 ∷ next.payload);
            fits = next.fits;
          }
      | inr (plain, e') ↦ elim (Bool-cases (code == 0xFF)) [
        | inl whole ↦
            let full : length block ≡ 254 = ground (arith, whole, size) in
            let next =
              decode_loop-HasDecoded fuel rest capacity (output ++ block) result
                (omega (arith, small, room, size, grown)) e' in
            record {
              payload = block ++ next.payload;
              framed =
                  subst (λ f. IsFrameOf f (block ++ next.payload)) split
                    (full_block block rest next.payload full next.framed);
              appended = next.appended ∙ append_assoc output block next.payload;
              fits = next.fits;
            }
        | inr shorter ↦
            let short : length block ≢ 254 = λ q. ground (arith, shorter, size, q) in
            let empty : length rest ≡ 0 = ground (arith, shorter, plain) in
            let same = nothing_left fuel rest capacity (output ++ block) result empty e' in
            record {
              payload = block;
              framed =
                  subst (λ f. IsFrameOf f block)
                    (ap (λ r. (length block + 1) ∷ r)
                        (sym (append-nil block) ∙ ap (λ r. block ++ r) (sym (nil_of rest empty)))
                      ∙ split)
                    (last_block block short);
              appended = sym same;
              fits =
                  subst (λ r. length r ≤ capacity) same (omega (arith, small, room, size, grown));
            }
      ]
    ]

-- A frame decodes to some bytes exactly if it is not empty, it is a COBS frame of these bytes, and they
-- fit the output buffer.
pub decode_iff :
    (frame : List ℕ) (capacity : ℕ) (payload : List ℕ)
    → (decode frame capacity ≡ some payload)
      ↔ ((0 < length frame) × IsFrameOf frame payload × (length payload ≤ capacity))
unfolding decode
decode_iff [] capacity payload = (λ e. absurd (cc), λ h. absurd (omega (arith, h.0)))
decode_iff (byte ∷ frame) capacity payload = (
  λ e.
      let done =
        decode_loop-HasDecoded (suc (length (byte ∷ frame))) (byte ∷ frame) capacity [] payload
          (omega arith) e in
      (omega arith, subst (IsFrameOf (byte ∷ frame)) (sym done.appended) done.framed, done.fits),
  λ (_, framed, fits).
      decode_loop-frame (suc (length (byte ∷ frame))) capacity [] framed (omega arith)
        (omega (arith, fits)),
)
