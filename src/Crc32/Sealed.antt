-- ===== src/Crc32/Sealed.antt =====
-- shared/src/crc32.c as the persistent records use it: a byte range whose last word is the CRC of
-- what stands before it, with one byte changed.
use secure_delta_ota_bootloa.Base.{
  ℕ, zero, suc, ◌+◌, ◌*◌, ◌^◌, ◌≤◌, ◌<◌, ◌≡◌, ◌≢◌, inl, inr, refl, ap, sym, ◌∙◌, List, [], ◌∷◌,
  ◌++◌, arith, length, take, set, get_or, All, All-take, length-take, if◌then◌else◌, ◌==◌, ==_iff,
  Bool-cases, ltb, ltb→lt,
}
use secure_delta_ota_bootloa.Base.Bytes.{IsByte, byte_at, le32_sum, get_u32_le}
use secure_delta_ota_bootloa.Crc32.{calculate}
use secure_delta_ota_bootloa.Crc32.Detects.{calculate_detects_byte}

abbrev pub IsSealedAt : ℕ → List ℕ → Type 0
IsSealedAt n bs = get_u32_le bs n ≡ calculate (take n bs)

module _ {ℓ} {A : Type ℓ} where
  -- A write inside the prefix that is taken, or behind it.
  take-set_below :
      (n i : ℕ) (bs : List A) (y : A) → i < n → take n (set bs i y) ≡ set (take n bs) i y
  take-set_below zero i bs y h = absurd (omega arith)
  take-set_below (suc n) i [] y h = refl
  take-set_below (suc n) zero (b ∷ bs) y h = refl
  take-set_below (suc n) (suc i) (b ∷ bs) y h =
      ap (λ t. b ∷ t) (take-set_below n i bs y (omega arith))

  take-set_above : (n i : ℕ) (bs : List A) (y : A) → n ≤ i → take n (set bs i y) ≡ take n bs
  take-set_above zero i bs y h = refl
  take-set_above (suc n) i [] y h = refl
  take-set_above (suc n) zero (b ∷ bs) y h = absurd (omega arith)
  take-set_above (suc n) (suc i) (b ∷ bs) y h =
      ap (λ t. b ∷ t) (take-set_above n i bs y (omega arith))

  get_or-set_ne :
      (bs : List A) (i j : ℕ) (y d : A) → i ≢ j → get_or (set bs i y) j d ≡ get_or bs j d
  get_or-set_ne [] i j y d h = refl
  get_or-set_ne (b ∷ bs) zero zero y d h = absurd (h refl)
  get_or-set_ne (b ∷ bs) zero (suc j) y d h = refl
  get_or-set_ne (b ∷ bs) (suc i) zero y d h = refl
  get_or-set_ne (b ∷ bs) (suc i) (suc j) y d h = get_or-set_ne bs i j y d (λ e. h (ap suc e))

  get_or-set_self : (bs : List A) (i : ℕ) (y d : A) → i < length bs → get_or (set bs i y) i d ≡ y
  get_or-set_self [] i y d h = absurd (omega arith)
  get_or-set_self (b ∷ bs) zero y d h = refl
  get_or-set_self (b ∷ bs) (suc i) y d h = get_or-set_self bs i y d (omega arith)

  get_or-take : (n i : ℕ) (bs : List A) (d : A) → i < n → get_or (take n bs) i d ≡ get_or bs i d
  get_or-take zero i bs d h = absurd (omega arith)
  get_or-take (suc n) i [] d h = refl
  get_or-take (suc n) zero (b ∷ bs) d h = refl
  get_or-take (suc n) (suc i) (b ∷ bs) d h = get_or-take n i bs d (omega arith)

pub set-IsByte : (bs : List ℕ) (i y : ℕ) → All IsByte bs → IsByte y → All IsByte (set bs i y)
set-IsByte [] i y h hy = tt
set-IsByte (b ∷ bs) zero y h hy = (hy, h.1)
set-IsByte (b ∷ bs) (suc i) y h hy = (h.0, set-IsByte bs i y h.1 hy)

pub byte_at-IsByte : (bs : List ℕ) (i : ℕ) → All IsByte bs → IsByte (byte_at bs i)
byte_at-IsByte [] i h = omega arith
byte_at-IsByte (b ∷ bs) zero h = h.0
byte_at-IsByte (b ∷ bs) (suc i) h = byte_at-IsByte bs i h.1

-- A range around the byte that is written.
record Around (bs : List ℕ) (i y : ℕ) : Type 0 where
  before : List ℕ
  after : List ℕ
  whole : bs ≡ before ++ (byte_at bs i ∷ after)
  written : set bs i y ≡ before ++ (y ∷ after)
  before_bytes : All IsByte before
  after_bytes : All IsByte after

around : (bs : List ℕ) (i y : ℕ) → All IsByte bs → i < length bs → Around bs i y
around [] i y hb h = absurd (omega arith)
around (b ∷ bs) zero y hb h = record {
  before = [];
  after = bs;
  whole = refl;
  written = refl;
  before_bytes = tt;
  after_bytes = hb.1;
}
around (b ∷ bs) (suc i) y hb h =
    let r = around bs i y hb.1 (omega arith) in
    record {
      before = b ∷ r.before;
      after = r.after;
      whole = ap (λ t. b ∷ t) r.whole;
      written = ap (λ t. b ∷ t) r.written;
      before_bytes = (hb.0, r.before_bytes);
      after_bytes = r.after_bytes;
    }

calculate-set_ne :
    (bs : List ℕ) (i y : ℕ)
    → All IsByte bs
    → i < length bs
    → IsByte y
    → byte_at bs i ≢ y
    → calculate (set bs i y) ≢ calculate bs
calculate-set_ne bs i y hb h hy ne e =
    let r = around bs i y hb h in
    calculate_detects_byte r.before r.after (byte_at bs i) y r.before_bytes r.after_bytes
      (byte_at-IsByte bs i hb) hy ne (sym (ap calculate r.whole) ∙ sym e ∙ ap calculate r.written)

abbrev word_bytes : List ℕ → ℕ → ℕ
word_bytes bs n =
    byte_at bs n
    + byte_at bs (n + 1) * 2 ^ 8
    + byte_at bs (n + 2) * 2 ^ 16
    + byte_at bs (n + 3) * 2 ^ 24

get_u32_le_sum : (bs : List ℕ) (n : ℕ) → All IsByte bs → get_u32_le bs n ≡ word_bytes bs n
unfolding get_u32_le
get_u32_le_sum bs n h =
    le32_sum (byte_at bs n) (byte_at bs (n + 1)) (byte_at bs (n + 2)) (byte_at bs (n + 3))
      (byte_at-IsByte bs n h) (byte_at-IsByte bs (n + 1) h) (byte_at-IsByte bs (n + 2) h)
      (byte_at-IsByte bs (n + 3) h)

byte_at-set :
    (bs : List ℕ) (i k y : ℕ)
    → i < length bs
    → byte_at (set bs i y) k ≡ (if i == k then y else byte_at bs k)
byte_at-set bs i k y h = elim (Bool-cases (i == k)) [
  | inl same ↦ rw same (rw (← (==_iff i k).0 same) (get_or-set_self bs i y 0 h))
  | inr other ↦ rw other (get_or-set_ne bs i k y 0 (ground arith))
]

-- The word at `n` after a write at `i`.
word-set :
    (bs : List ℕ) (n i y : ℕ)
    → All IsByte bs
    → i < length bs
    → IsByte y
    → get_u32_le (set bs i y) n ≡ word_bytes (set bs i y) n
word-set bs n i y hb hi hy = get_u32_le_sum (set bs i y) n (set-IsByte bs i y hb hy)

get_u32_le-set_below :
    (bs : List ℕ) (n i y : ℕ)
    → All IsByte bs
    → i < length bs
    → i < n
    → IsByte y
    → get_u32_le (set bs i y) n ≡ get_u32_le bs n
get_u32_le-set_below bs n i y hb hl hi hy = ground (
  arith,
  get_u32_le_sum bs n hb,
  word-set bs n i y hb hl hy,
  byte_at-set bs i n y hl,
  byte_at-set bs i (n + 1) y hl,
  byte_at-set bs i (n + 2) y hl,
  byte_at-set bs i (n + 3) y hl,
)

get_u32_le-set_ne :
    (bs : List ℕ) (n i y : ℕ)
    → All IsByte bs
    → i < length bs
    → n ≤ i
    → i < n + 4
    → IsByte y
    → byte_at bs i ≢ y
    → get_u32_le (set bs i y) n ≢ get_u32_le bs n
get_u32_le-set_ne bs n i y hb hl hn hi hy ne e = ground (
  arith,
  get_u32_le_sum bs n hb,
  word-set bs n i y hb hl hy,
  byte_at-set bs i n y hl,
  byte_at-set bs i (n + 1) y hl,
  byte_at-set bs i (n + 2) y hl,
  byte_at-set bs i (n + 3) y hl,
  byte_at-IsByte bs n hb,
  byte_at-IsByte bs (n + 1) hb,
  byte_at-IsByte bs (n + 2) hb,
  byte_at-IsByte bs (n + 3) hb,
)

-- One changed byte breaks the seal, wherever it stands.
pub IsSealedAt-set :
    (n : ℕ) (bs : List ℕ) (i y : ℕ)
    → length bs ≡ n + 4
    → All IsByte bs
    → IsSealedAt n bs
    → i < n + 4
    → IsByte y
    → byte_at bs i ≢ y
    → ¬ IsSealedAt n (set bs i y)
IsSealedAt-set n bs i y hl hb sealed hi hy ne e = elim (Bool-cases (ltb i n)) [
  | inl below ↦
      let h : i < n = ltb→lt i n below in
      calculate-set_ne (take n bs) i y (All-take IsByte n bs hb) (omega (arith, length-take n bs))
        hy (rw (get_or-take n i bs 0 h) ne)
        (ap calculate (sym (take-set_below n i bs y h))
          ∙ sym e
          ∙ get_u32_le-set_below bs n i y hb (omega arith) h hy
          ∙ sealed)
  | inr above ↦
      get_u32_le-set_ne bs n i y hb (omega arith) (ground arith) hi hy ne
        (e ∙ ap calculate (take-set_above n i bs y (ground arith)) ∙ sym sealed)
]
