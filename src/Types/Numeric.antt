-- ===== src/Types/Numeric.antt =====
-- numeric_in_binary: what it makes of the two's complement integer that the server sends.
use amazon_redshift_python_d.Prelude.{
  ℕ, ◌+◌, ◌-◌, ◌*◌, ◌^◌, ◌<◌, ◌≡◌, ◌↔◌, ◌⊎◌, ap, ◌++◌, arith, ltb, if◌then◌else◌, length, All,
  length-append,
}
use mathlib.Core.List.{append_assoc}
use amazon_redshift_python_d.Prelude.Int.{ℤ, pos, negsuc}
use amazon_redshift_python_d.Prelude.Result.{ok}
use amazon_redshift_python_d.Prelude.Text.{Bytes}
use amazon_redshift_python_d.Types.{decimal}
use amazon_redshift_python_d.Types.Recv.{recv_numeric, or_words}
use amazon_redshift_python_d.Wire.{q, of_word, unpack, be_value}
use amazon_redshift_python_d.Wire.Words.{IsByte, be_value-append, be_value-lt}
use amazon_redshift_python_d.Wire.RoundTrip.{unpack_chunk}

-- The integer of 16 bytes in two's complement.
abbrev pub of_word_128 : ℕ → ℤ
of_word_128 u = if ltb u (2 ^ 127) then pos u else negsuc (2 ^ 128 - 1 - u)

-- The two words are read as one exactly where the low one has its top bit clear or the high one
-- has all bits set.
or_words_iff :
    (a b : ℕ)
    → a < 2 ^ 64
    → b < 2 ^ 64
    → (or_words (of_word q a) (of_word q b) ≡ of_word_128 (a * 2 ^ 64 + b))
      ↔ ((b < 2 ^ 63) ⊎ (a ≡ 2 ^ 64 - 1))
unfolding or_words
or_words_iff a b la lb = (λ e. ground arith, λ c. ground arith)

-- The second word of a chunk of 16 bytes stands eight bytes further.
second_word :
    (before a b rest : Bytes)
    → length a ≡ 8
    → length b ≡ 8
    → unpack q (before ++ (a ++ (b ++ rest))) (length before + 8) ≡ ok (of_word q (be_value b))
second_word before a b rest la lb =
    rw (← append_assoc before a (b ++ rest), ← at_a) (unpack_chunk q (before ++ a) b rest lb)
  where
    at_a : length (before ++ a) ≡ length before + 8
    at_a = omega (arith, length-append {0} before a)

-- numeric_in_binary reads the 16 bytes of a decimal as the two's complement integer that they are
-- if and only if the low eight bytes are below 2^63 or the high eight bytes are all ones; the scale
-- goes through, and what stands around the bytes is not read.
pub numeric_16_iff :
    (before a b rest : Bytes) (scale : ℕ)
    → length a ≡ 8
    → length b ≡ 8
    → All IsByte a
    → All IsByte b
    → (recv_numeric (before ++ (a ++ (b ++ rest))) (length before) 16 scale
        ≡ ok (decimal (of_word_128 (be_value (a ++ b))) scale))
      ↔ ((be_value b < 2 ^ 63) ⊎ (be_value a ≡ 2 ^ 64 - 1))
unfolding recv_numeric
numeric_16_iff before a b rest scale la lb pa pb =
    rw
      (
        unpack_chunk q before a (b ++ rest) la,
        second_word before a b rest la lb,
        be_value-append a b,
        lb,
      )
      ((λ e. words.0 (decimal_injective e)), (λ c. ap (λ z. ok (decimal z scale)) (words.1 c)))
  where
    decimal_injective : {x y : ℤ} → ok (decimal x scale) ≡ ok (decimal y scale) → x ≡ y
    decimal_injective e = cc

    words :
        (or_words (of_word q (be_value a)) (of_word q (be_value b))
          ≡ of_word_128 (be_value a * 2 ^ 64 + be_value b))
        ↔ ((be_value b < 2 ^ 63) ⊎ (be_value a ≡ 2 ^ 64 - 1))
    words =
        or_words_iff (be_value a) (be_value b) (rw la at (be_value-lt a pa))
          (rw lb at (be_value-lt b pb))
