-- ===== src/Prelude/Text/Utf8.antt =====
-- `str.encode("utf8")` and `bytes.decode("utf8")`, strict: over-long forms, surrogates and values
-- past U+10FFFF raise `UnicodeError`.
use Prim.Native.Nat.{ℕ, ◌+◌, ◌-◌, ◌*◌, ◌/◌, ◌%◌}
use mathlib.Core.Bool.{Bool, ◌&&◌, not}
use mathlib.Core.Option.{Option, none, some}
use mathlib.Core.List.{List, [], ◌∷◌, ◌++◌}
use amazon_redshift_python_d.Prelude.Tests.{leb, ltb, if◌then◌else◌}
use amazon_redshift_python_d.Prelude.Result.{Result, ok, err, unicode_error, ◌>>=◌}

abbrev is_surrogate : ℕ → Bool
is_surrogate c = leb 0xd800 c && leb c 0xdfff

unfoldable pub encode_char : ℕ → Result (List ℕ)
encode_char c =
    if ltb c 0x80
    then ok (c ∷ [])
    else if ltb c 0x800
    then ok ((0xc0 + c / 64) ∷ (0x80 + c % 64) ∷ [])
    else if is_surrogate c
    then err unicode_error
    else if ltb c 0x10000
    then ok ((0xe0 + c / 4096) ∷ (0x80 + c / 64 % 64) ∷ (0x80 + c % 64) ∷ [])
    else if ltb c 0x110000
    then ok
        ((0xf0 + c / 262144) ∷ (0x80 + c / 4096 % 64) ∷ (0x80 + c / 64 % 64) ∷ (0x80 + c % 64) ∷ [])
    else err unicode_error

unfoldable pub encode : List ℕ → Result (List ℕ)
unfolding encode_char
encode [] = ok []
encode (c ∷ cs) = do first ← encode_char c; rest ← encode cs; ok (first ++ rest)

abbrev is_tail : ℕ → Bool
is_tail b = leb 0x80 b && leb b 0xbf

-- A code point of the given number of bytes, if it is well formed.
abbrev two : ℕ → ℕ → Option ℕ
two a b =
    if leb 0xc2 a && leb a 0xdf && is_tail b then some ((a - 0xc0) * 64 + (b - 0x80)) else none

three_value : ℕ → ℕ → ℕ → ℕ
three_value a b c = (a - 0xe0) * 4096 + (b - 0x80) * 64 + (c - 0x80)

three : ℕ → ℕ → ℕ → Option ℕ
unfolding three_value
three a b c =
    let v = three_value a b c in
    if leb 0xe0 a && leb a 0xef && is_tail b && is_tail c && leb 0x800 v && not (is_surrogate v)
    then some v
    else none

four_value : ℕ → ℕ → ℕ → ℕ → ℕ
four_value a b c d = (a - 0xf0) * 262144 + (b - 0x80) * 4096 + (c - 0x80) * 64 + (d - 0x80)

four : ℕ → ℕ → ℕ → ℕ → Option ℕ
unfolding four_value
four a b c d =
    let v = four_value a b c d in
    if leb 0xf0 a
      && leb a 0xf7
      && is_tail b
      && is_tail c
      && is_tail d
      && leb 0x10000 v
      && ltb v 0x110000
    then some v
    else none

prepend : Option ℕ → Result (List ℕ) → Result (List ℕ)
prepend none rest = err unicode_error
prepend (some c) rest = do cs ← rest; ok (c ∷ cs)

-- The lead byte decides how many bytes a code point takes.
unfoldable pub decode : List ℕ → Result (List ℕ)
unfolding prepend three four
decode [] = ok []
decode (a ∷ []) = if ltb a 0x80 then ok (a ∷ []) else err unicode_error
decode (a ∷ b ∷ []) =
    let r1 = decode (b ∷ []) in
    if ltb a 0x80 then prepend (some a) r1 else prepend (two a b) (ok [])
decode (a ∷ b ∷ c ∷ []) =
    let r1 = decode (b ∷ c ∷ []) in
    let r2 = decode (c ∷ []) in
    if ltb a 0x80
    then prepend (some a) r1
    else if ltb a 0xe0
    then prepend (two a b) r2
    else prepend (three a b c) (ok [])
decode (a ∷ b ∷ c ∷ d ∷ rest) =
    let r1 = decode (b ∷ c ∷ d ∷ rest) in
    let r2 = decode (c ∷ d ∷ rest) in
    let r3 = decode (d ∷ rest) in
    let r4 = decode rest in
    if ltb a 0x80
    then prepend (some a) r1
    else if ltb a 0xe0
    then prepend (two a b) r2
    else if ltb a 0xf0
    then prepend (three a b c) r3
    else prepend (four a b c d) r4

-- bytes.decode("ascii")
unfoldable pub decode_ascii : List ℕ → Result (List ℕ)
decode_ascii [] = ok []
decode_ascii (a ∷ rest) =
    if ltb a 0x80 then (do cs ← decode_ascii rest; ok (a ∷ cs)) else err unicode_error
