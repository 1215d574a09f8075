-- ===== src/Base/Range.antt =====
-- Consecutive bytes of a memory, and their comparison.
use secure_delta_ota_bootloa.Base.{
  ℕ, zero, suc, ◌+◌, ◌≤◌, ◌<◌, ◌≡◌, refl, ap, ap₂, ◌∙◌, Bool, true, false, List, [], ◌∷◌, ◌++◌,
  arith, length, All, ◌!=◌, if◌then◌else◌, !=_refl, drop, replicate, get_or,
}
use secure_delta_ota_bootloa.Base.Bytes.{IsByte}

-- `count` consecutive bytes of a memory.
unfoldable pub read_range : (ℕ → ℕ) → ℕ → ℕ → List ℕ
read_range memory address zero = []
read_range memory address (suc count) = memory address ∷ read_range memory (address + 1) count

-- `MetadataStorage_RecordsEqual` compares the bytes up to the first difference.
unfoldable pub bytes_equal : List ℕ → List ℕ → Bool
bytes_equal [] _ = true
bytes_equal (x ∷ xs) [] = true
bytes_equal (x ∷ xs) (y ∷ ys) = if x != y then false else bytes_equal xs ys

pub read_range-eq :
    (f g : ℕ → ℕ) (address n : ℕ)
    → ((a : ℕ) → address ≤ a → a < address + n → f a ≡ g a)
    → read_range f address n ≡ read_range g address n
unfolding read_range
read_range-eq f g address zero same = refl
read_range-eq f g address (suc n) same =
    ap₂ ◌∷◌ (same address (omega arith) (omega arith))
      (read_range-eq f g (address + 1) n (λ a lo hi. same a (omega arith) (omega arith)))

pub length-read_range : (f : ℕ → ℕ) (address n : ℕ) → length (read_range f address n) ≡ n
unfolding read_range
length-read_range f address zero = refl
length-read_range f address (suc n) = ap suc (length-read_range f (address + 1) n)

pub read_range-IsByte :
    (f : ℕ → ℕ) (address n : ℕ) → ((a : ℕ) → IsByte (f a)) → All IsByte (read_range f address n)
unfolding read_range
read_range-IsByte f address zero h = tt
read_range-IsByte f address (suc n) h = (h address, read_range-IsByte f (address + 1) n h)

pub read_range-two :
    (f : ℕ → ℕ) (address n : ℕ)
    → read_range f address (suc (suc n))
      ≡ f address ∷ f (address + 1) ∷ read_range f (address + 2) n
unfolding read_range
read_range-two f address n = let e : address + 1 + 1 ≡ address + 2 = omega arith in rw e

pub bytes_equal_refl : (bs : List ℕ) → bytes_equal bs bs ≡ true
unfolding bytes_equal
bytes_equal_refl [] = refl
bytes_equal_refl (b ∷ bs) = rw (!=_refl b) (bytes_equal_refl bs)

-- Equal lengths are assumed: the comparison of two structures of one type.
pub bytes_equal-eq : (xs ys : List ℕ) → length xs ≡ length ys → bytes_equal xs ys ≡ true → xs ≡ ys
unfolding bytes_equal
bytes_equal-eq [] [] n e = refl
bytes_equal-eq [] (y ∷ ys) n e = absurd (omega arith)
bytes_equal-eq (x ∷ xs) [] n e = absurd (omega arith)
bytes_equal-eq (x ∷ xs) (y ∷ ys) n e = ground (arith, bytes_equal-eq xs ys)

-- A range in two parts.
pub read_range-append :
    (f : ℕ → ℕ) (address m n : ℕ)
    → read_range f address (m + n) ≡ read_range f address m ++ read_range f (address + m) n
unfolding read_range
read_range-append f address zero n =
    let e : address + 0 ≡ address = omega arith in
    let none_more : 0 + n ≡ n = omega arith in rw (e, none_more)
read_range-append f address (suc m) n =
    let e : address + suc m ≡ address + 1 + m = omega arith in
    let more : suc m + n ≡ suc (m + n) = omega arith in
    rw (e, more) (ap (λ r. f address ∷ r) (read_range-append f (address + 1) m n))

pub read_range-replicate :
    (f : ℕ → ℕ) (address n b : ℕ)
    → ((a : ℕ) → address ≤ a → a < address + n → f a ≡ b)
    → read_range f address n ≡ replicate n b
unfolding read_range
read_range-replicate f address zero b same = refl
read_range-replicate f address (suc n) b same =
    ap₂ ◌∷◌ (same address (omega arith) (omega arith))
      (read_range-replicate f (address + 1) n b (λ a lo hi. same a (omega arith) (omega arith)))

-- Two memories with equal ranges agree at each place of the ranges.
pub read_range-pointwise :
    (f g : ℕ → ℕ) (a b n i : ℕ)
    → read_range f a n ≡ read_range g b n
    → i < n
    → f (a + i) ≡ g (b + i)
unfolding read_range
read_range-pointwise f g a b zero i e h = absurd (omega arith)
read_range-pointwise f g a b (suc n) zero e h =
    ap f (omega arith) ∙ ap (λ l. get_or l 0 0) e ∙ ap g (omega arith)
read_range-pointwise f g a b (suc n) (suc i) e h =
    ap f (omega arith)
    ∙ read_range-pointwise f g (a + 1) (b + 1) n i (ap (drop 1) e) (omega arith)
    ∙ ap g (omega arith)

pub read_range-shift :
    (f g : ℕ → ℕ) (a b n : ℕ)
    → ((i : ℕ) → i < n → f (a + i) ≡ g (b + i))
    → read_range f a n ≡ read_range g b n
unfolding read_range
read_range-shift f g a b zero same = refl
read_range-shift f g a b (suc n) same =
    ap₂ ◌∷◌ (ap f (omega arith) ∙ same 0 (omega arith) ∙ ap g (omega arith)) (
      read_range-shift f g (a + 1) (b + 1) n
        (λ i h. ap f (omega arith) ∙ same (suc i) (omega (arith, h)) ∙ ap g (omega arith)))
