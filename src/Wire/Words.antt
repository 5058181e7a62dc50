-- ===== src/Wire/Words.antt =====
-- The big-endian digits of a number: `be_bytes` and `be_value` are inverse.
use amazon_redshift_python_d.Prelude.{
  ℕ, zero, suc, ◌+◌, ◌*◌, ◌/◌, ◌%◌, ◌^◌, ◌≤◌, ◌<◌, ◌≡◌, ◌∙◌, ap, refl, [], ◌∷◌, ◌++◌, arith, length,
  length-append, All,
}
use amazon_redshift_python_d.Prelude.Int.{ℤ}
use amazon_redshift_python_d.Prelude.Result.{ok}
use amazon_redshift_python_d.Prelude.Text.{Bytes}
use amazon_redshift_python_d.Wire.{
  Format, h, i, q, size, half, be_bytes, be_value_from, be_value, to_word, of_word,
}
use native.Mathlib.Nat.{pow-suc}

abbrev pub IsByte : ℕ → Type 0
IsByte b = b < 256

be_value_from-append :
    (acc : ℕ) (xs ys : Bytes)
    → be_value_from acc (xs ++ ys) ≡ be_value_from (be_value_from acc xs) ys
unfolding be_value_from
be_value_from-append acc [] ys = refl
be_value_from-append acc (x ∷ xs) ys = be_value_from-append (acc * 256 + x) xs ys

pub length-be_bytes : (n v : ℕ) → length (be_bytes n v) ≡ n
unfolding be_bytes
length-be_bytes zero v = refl
length-be_bytes (suc n) v =
    omega
      (arith, length-append {0} (be_bytes n (v / 256)) (v % 256 ∷ []), length-be_bytes n (v / 256))

pub be_value-be_bytes : (n v : ℕ) → v < 256 ^ n → be_value (be_bytes n v) ≡ v
unfolding be_bytes be_value_from
be_value-be_bytes zero v lt = omega arith
be_value-be_bytes (suc n) v lt = omega (
  arith,
  be_value_from-append 0 (be_bytes n (v / 256)) (v % 256 ∷ []),
  be_value-be_bytes n (v / 256) (omega (arith, pow-suc 256 n)),
)

-- A word of each format is below 256 ^ size.
pub word_fits : (f : Format) (u : ℕ) → u < 2 * half f → u < 256 ^ size f
word_fits h u lt = omega arith
word_fits i u lt = omega arith
word_fits q u lt = omega arith

pub to_word-lt : (f : Format) (v : ℤ) (u : ℕ) → to_word f v ≡ ok u → u < 2 * half f
to_word-lt h v u e = ground arith
to_word-lt i v u e = ground arith
to_word-lt q v u e = ground arith

pub of_word-to_word : (f : Format) (v : ℤ) (u : ℕ) → to_word f v ≡ ok u → of_word f u ≡ v
of_word-to_word h v u e = ground arith
of_word-to_word i v u e = ground arith
of_word-to_word q v u e = ground arith

-- The value of a number's bytes in front of others, and its bound.
pub be_value_from_lem :
    (acc : ℕ) (bs : Bytes) → be_value_from acc bs ≡ acc * 256 ^ length bs + be_value bs
unfolding be_value_from
be_value_from_lem acc [] = omega arith
be_value_from_lem acc (b ∷ bs) = omega (
  arith,
  be_value_from_lem (acc * 256 + b) bs,
  be_value_from_lem (0 * 256 + b) bs,
  ap (λ (t : ℕ). acc * t) (pow-suc 256 (length bs)),
)

pub be_value-append :
    (xs ys : Bytes) → be_value (xs ++ ys) ≡ be_value xs * 256 ^ length ys + be_value ys
be_value-append xs ys = be_value_from-append 0 xs ys ∙ be_value_from_lem (be_value xs) ys

below_next : (b p : ℕ) → b < 256 → b * p + p ≤ 256 * p
below_next b p lt = grind arith

pub be_value-lt : (bs : Bytes) → All IsByte bs → be_value bs < 256 ^ length bs
unfolding be_value_from
be_value-lt [] bytes = omega arith
be_value-lt (b ∷ bs) (pb, pbs) = grind (
  arith,
  be_value_from_lem (0 * 256 + b) bs,
  be_value-lt bs pbs,
  pow-suc 256 (length bs),
  below_next b (256 ^ length bs),
)
