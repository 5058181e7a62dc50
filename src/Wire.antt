-- ===== src/Wire.antt =====
-- redshift_connector/utils/type_utils.py, the `struct` formats `pack_funcs` is called with, and the
-- framing of messages in redshift_connector/core.py (`create_message`, the header that `ci_unpack`
-- reads). `!h`, `!i` and `!q` are signed big-endian words of 2, 4 and 8 bytes; a value out of range
-- and a buffer that is too short are Python's `struct.error`.
pub mod Words
pub mod RoundTrip
use amazon_redshift_python_d.Prelude.{
  ℕ, zero, suc, ◌+◌, ◌-◌, ◌*◌, ◌/◌, ◌%◌, ◌≡◌, refl, List, [], ◌∷◌, ◌++◌, ltb, ◌==◌, if◌then◌else◌,
  take, drop, length,
}
use amazon_redshift_python_d.Prelude.Int.{ℤ, pos, negsuc}
use amazon_redshift_python_d.Prelude.Result.{Result, ok, err, struct_error, ◌>>=◌, ◌>>◌}
use amazon_redshift_python_d.Prelude.Text.{Bytes}

-- The signed formats "h", "i" and "q".
pub data Format : Type 0 where
  h i q : Format

abbrev pub size : Format → ℕ
size h = 2
size i = 4
size q = 8

-- Half the number of values: a signed word holds -half .. half - 1.
abbrev pub half : Format → ℕ
half h = 32768
half i = 2147483648
half q = 9223372036854775808

-- The `n` low bytes of `v`, most significant first, and back.
unfoldable pub be_bytes : ℕ → ℕ → Bytes
be_bytes zero v = []
be_bytes (suc n) v = be_bytes n (v / 256) ++ (v % 256 ∷ [])

unfoldable pub be_value_from : ℕ → Bytes → ℕ
be_value_from acc [] = acc
be_value_from acc (b ∷ bs) = be_value_from (acc * 256 + b) bs

abbrev pub be_value : Bytes → ℕ
be_value = be_value_from 0

-- Two's complement.
abbrev pub to_word : Format → ℤ → Result ℕ
to_word f (pos n) = if ltb n (half f) then ok n else err struct_error
to_word f (negsuc n) = if ltb n (half f) then ok (2 * half f - 1 - n) else err struct_error

abbrev pub of_word : Format → ℕ → ℤ
of_word f u = if ltb u (half f) then pos u else negsuc (2 * half f - 1 - u)

-- `struc.pack` and `struc.unpack_from` of one word.
unfoldable pub pack : Format → ℤ → Result Bytes
pack f v = do u ← to_word f v; ok (be_bytes (size f) u)

unfoldable pub unpack : Format → Bytes → ℕ → Result ℤ
unpack f data_bytes offset =
    let chunk = take (size f) (drop offset data_bytes) in
    if length chunk == size f then ok (of_word f (be_value chunk)) else err struct_error

-- I_unpack: an unsigned word of 4 bytes.
unfoldable pub unpack_unsigned : Bytes → ℕ → Result ℕ
unpack_unsigned data_bytes offset =
    let chunk = take 4 (drop offset data_bytes) in
    if length chunk == 4 then ok (be_value chunk) else err struct_error

-- create_message: the code, the length of the rest with its own four bytes, the data.
unfoldable pub create_message : ℕ → Bytes → Result Bytes
create_message code data_bytes = do
  len ← pack i (pos (length data_bytes + 4))
  ok (code ∷ len ++ data_bytes)

-- ci_unpack: the code and the length of a message, out of its first five bytes.
unfoldable pub ci_unpack : Bytes → Result (ℕ × ℤ)
ci_unpack [] = err struct_error
ci_unpack (code ∷ rest) = do len ← unpack i rest 0; ok (code, len)
