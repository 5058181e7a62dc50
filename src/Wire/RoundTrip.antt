-- ===== src/Wire/RoundTrip.antt =====
-- What the `struct` words and the message frames read back.
use amazon_redshift_python_d.Prelude.{
  ℕ, ◌+◌, ◌-◌, ◌*◌, ◌<◌, ◌≡◌, ◌⊎◌, ◌↔◌, inl, inr, refl, ap, [], ◌∷◌, ◌++◌, arith, ltb, Bool-cases,
  ==_iff, take, drop, length, take-append_length, drop-append_length,
}
use mathlib.Core.List.{append_assoc, append-nil}
use amazon_redshift_python_d.Prelude.Int.{ℤ, pos, negsuc}
use amazon_redshift_python_d.Prelude.Result.{Result, ok, err, struct_error, ◌>>=◌}
use amazon_redshift_python_d.Prelude.Text.{Bytes}
use amazon_redshift_python_d.Wire.{
  Format, i, size, half, be_bytes, be_value, to_word, of_word, pack, unpack, create_message,
  ci_unpack,
}
use amazon_redshift_python_d.Wire.Words.{
  length-be_bytes, be_value-be_bytes, word_fits, to_word-lt, of_word-to_word,
}

-- The values that a signed word of the format holds.
abbrev pub Fits : Format → ℤ → Type 0
Fits f (pos n) = n < half f
Fits f (negsuc n) = n < half f

-- A packed value is the digits of a word that stands for it.
pack-word :
    (f : Format) (v : ℤ) (bs : Bytes)
    → pack f v ≡ ok bs
    → (u : ℕ) × (to_word f v ≡ ok u) × (bs ≡ be_bytes (size f) u)
unfolding pack
pack-word f v bs e = go (to_word f v) refl e
  where
    go :
        (r : Result ℕ)
        → to_word f v ≡ r
        → (r >>= λ u. ok (be_bytes (size f) u)) ≡ ok bs
        → (u : ℕ) × (to_word f v ≡ ok u) × (bs ≡ be_bytes (size f) u)
    go (ok u) t p = (u, t, cc)
    go (err x) t p = cc

pub length-pack : (f : Format) (v : ℤ) (bs : Bytes) → pack f v ≡ ok bs → length bs ≡ size f
length-pack f v bs e = let (u, t, p) = pack-word f v bs e in rw p (length-be_bytes (size f) u)

take_word : (n : ℕ) (bs rest : Bytes) → length bs ≡ n → take n (bs ++ rest) ≡ bs
take_word n bs rest e = rw (← e) (take-append_length bs rest)

pub drop_word : (n : ℕ) (bs rest : Bytes) → length bs ≡ n → drop n (bs ++ rest) ≡ rest
drop_word n bs rest e = rw (← e) (drop-append_length bs rest)

-- What is packed is read back, wherever it stands in a buffer.
pub unpack-pack :
    (f : Format) (v : ℤ) (before bs rest : Bytes)
    → pack f v ≡ ok bs
    → unpack f (before ++ (bs ++ rest)) (length before) ≡ ok v
unfolding unpack
unpack-pack f v before bs rest e =
    let (u, t, p) = pack-word f v bs e in
    let len : length bs ≡ size f = length-pack f v bs e in
    rw (drop-append_length before (bs ++ rest)) (
      rw (take_word (size f) bs rest len) (
        rw ((==_iff (length bs) (size f)).1 len) (
          ap ok (
            rw p (
              rw (be_value-be_bytes (size f) u (word_fits f u (to_word-lt f v u t)))
                (of_word-to_word f v u t))))))

-- A word of the buffer, by the value of its bytes.
pub unpack_chunk :
    (f : Format) (before bs rest : Bytes)
    → length bs ≡ size f
    → unpack f (before ++ (bs ++ rest)) (length before) ≡ ok (of_word f (be_value bs))
unfolding unpack
unpack_chunk f before bs rest len =
    rw (drop-append_length before (bs ++ rest))
      (rw (take_word (size f) bs rest len) (rw ((==_iff (length bs) (size f)).1 len)))

-- Packing succeeds exactly on the values in range.
pub pack_iff : (f : Format) (v : ℤ) → ((bs : Bytes) × (pack f v ≡ ok bs)) ↔ Fits f v
unfolding pack
pack_iff f (pos n) = (λ p. ground (arith, p.1), λ lt. (be_bytes (size f) n, ground arith))
pack_iff f (negsuc n) =
    (λ p. ground (arith, p.1), λ lt. (be_bytes (size f) (2 * half f - 1 - n), ground arith))

-- A value out of range raises `struct.error`.
pub pack_range : (f : Format) (v : ℤ) → (Fits f v) ⊎ (pack f v ≡ err struct_error)
unfolding pack
pack_range f (pos n) = elim (Bool-cases (ltb n (half f))) [
  | inl yes' ↦ inl (ground arith)
  | inr no' ↦ inr (rw no')
]
pack_range f (negsuc n) = elim (Bool-cases (ltb n (half f))) [
  | inl yes' ↦ inl (ground arith)
  | inr no' ↦ inr (rw no')
]

-- The parts of a message that `create_message` built.
pub create_message_parts :
    (code : ℕ) (body m : Bytes)
    → create_message code body ≡ ok m
    → (len : Bytes) × (pack i (pos (length body + 4)) ≡ ok len) × (m ≡ code ∷ len ++ body)
unfolding create_message
create_message_parts code body m e = go (pack i (pos (length body + 4))) refl e
  where
    go :
        (r : Result Bytes)
        → pack i (pos (length body + 4)) ≡ r
        → (r >>= λ len. ok (code ∷ len ++ body)) ≡ ok m
        → (len : Bytes) × (pack i (pos (length body + 4)) ≡ ok len) × (m ≡ code ∷ len ++ body)
    go (ok len) t p = (len, t, cc)
    go (err x) t p = cc

-- The header of a message that `create_message` built gives its code and the length of its data
-- with the four bytes of the length, and what follows the header is the data.
pub ci_unpack-create_message :
    (code : ℕ) (body m rest : Bytes)
    → create_message code body ≡ ok m
    → (ci_unpack (take 5 (m ++ rest)) ≡ ok (code, pos (length body + 4)))
      × (drop 5 (m ++ rest) ≡ body ++ rest)
unfolding ci_unpack
ci_unpack-create_message code body m rest e =
    let (len, packed, parts) = create_message_parts code body m e in
    let four : length len ≡ 4 = length-pack i (pos (length body + 4)) len packed in
    let split : (len ++ body) ++ rest ≡ len ++ (body ++ rest) = append_assoc len body rest in
    let header : unpack i len 0 ≡ ok (pos (length body + 4)) =
      rw append-nil at (unpack-pack i (pos (length body + 4)) [] len [] packed) in
    (
      rw (parts, split, take_word 4 len (body ++ rest) four, header),
      rw (parts, split) (drop_word 4 len (body ++ rest) four),
    )
