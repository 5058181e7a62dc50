-- ===== src/Prelude/Text.antt =====
-- Texts and byte strings as lists of numbers: code points, or bytes below 256. The Python
-- operations on them that the source uses.
pub mod Utf8
use Prim.Native.Char.{code}
use Prim.Native.Nat.{ℕ, zero, suc, ◌+◌, ◌-◌, ◌*◌, ◌/◌, ◌%◌}
use Prim.Native.String.{String}
use mathlib.Core.Bool.{Bool, true, false, ◌&&◌, ◌||◌}
use mathlib.Core.Option.{Option, none, some}
use mathlib.Core.List.{List, [], ◌∷◌, ◌++◌, map, reverse}
use mathlib.Core.Path.{◌≡◌, refl}
use mathlib.Core.Logic.{◌↔◌}
use native.Mathlib.Omega.{arith}
use amazon_redshift_python_d.Prelude.Tests.{leb, ltb, ◌==◌, if◌then◌else◌}
use amazon_redshift_python_d.Prelude.Lists.{take, drop, length}
use amazon_redshift_python_d.Prelude.Int.{ℤ, pos, negsuc, sub_ℕ}
use amazon_redshift_python_d.Prelude.Result.{Result, ok, err, value_error, ◌>>=◌}

abbrev pub Bytes : Type 0
Bytes = List ℕ

abbrev pub Text : Type 0
Text = List ℕ

abbrev pub codes : String → List ℕ
codes String.[] = []
codes (String.◌∷◌ c s) = code c ∷ codes s

-- s == t
unfoldable pub text_eq : Text → Text → Bool
text_eq [] [] = true
text_eq [] (y ∷ ys) = false
text_eq (x ∷ xs) [] = false
text_eq (x ∷ xs) (y ∷ ys) = x == y && text_eq xs ys

pub text_eq_sound : (xs ys : Text) → text_eq xs ys ≡ true → xs ≡ ys
unfolding text_eq
text_eq_sound [] [] e = refl
text_eq_sound [] (y ∷ ys) e = ground arith
text_eq_sound (x ∷ xs) [] e = ground arith
text_eq_sound (x ∷ xs) (y ∷ ys) e = ground (arith, text_eq_sound xs ys)

pub text_eq_refl : (xs : Text) → text_eq xs xs ≡ true
unfolding text_eq
text_eq_refl [] = refl
text_eq_refl (x ∷ xs) = ground (arith, text_eq_refl xs)

-- c in s
unfoldable pub in_text : ℕ → Text → Bool
in_text c [] = false
in_text c (x ∷ xs) = c == x || in_text c xs

-- s in (a, b, …)
unfoldable pub in_texts : Text → List Text → Bool
unfolding text_eq
in_texts s [] = false
in_texts s (x ∷ xs) = text_eq s x || in_texts s xs

-- s[a:b] with 0 <= a <= b, and s[:-n], s[-n:]
abbrev pub slice : Text → ℕ → ℕ → Text
slice s a b = take (b - a) (drop a s)

abbrev pub drop_last : ℕ → Text → Text
drop_last n s = take (length s - n) s

abbrev pub take_last : ℕ → Text → Text
take_last n s = drop (length s - n) s

-- s.find(c), with `none` for -1; and s.find(c, start).
unfoldable pub find : ℕ → Text → Option ℕ
find c [] = none
find c (x ∷ xs) = elim (x == c) [
  | true ↦ some 0
  | false ↦ elim (find c xs) [ none ↦ none | some k ↦ some (suc k) ]
]

unfoldable pub find_from : ℕ → Text → ℕ → Option ℕ
unfolding find
find_from c s start = elim (find c (drop start s)) [ none ↦ none | some k ↦ some (start + k) ]

-- s.split(c), on one byte; `piece` is the piece being read, reversed.
unfoldable pub split_from : ℕ → Text → Text → List Text
split_from c piece [] = reverse piece ∷ []
split_from c piece (x ∷ xs) =
    let next = split_from c (if x == c then [] else x ∷ piece) xs in
    if x == c then reverse piece ∷ next else next

unfoldable pub split : ℕ → Text → List Text
unfolding split_from
split c s = split_from c [] s

abbrev pub is_digit : ℕ → Bool
is_digit c = leb 48 c && leb c 57

-- The white space that int() strips from a byte string.
abbrev pub is_space : ℕ → Bool
is_space c = c == 32 || (leb 9 c && leb c 13)

unfoldable pub strip_left : Text → Text
strip_left [] = []
strip_left (x ∷ xs) = if is_space x then strip_left xs else x ∷ xs

unfoldable pub strip : Text → Text
unfolding strip_left
strip s = reverse (strip_left (reverse (strip_left s)))

-- Decimal digits, single underscores between them allowed; `after` tells that the last character
-- was a digit.
unfoldable pub digits_from : ℕ → Bool → Text → Option ℕ
digits_from acc after [] = if after then some acc else none
digits_from acc after (c ∷ cs) =
    let next = digits_from (if is_digit c then acc * 10 + (c - 48) else acc) (is_digit c) cs in
    if is_digit c then next else if c == b'_' && after then next else none

int_of : Option ℕ → (ℕ → ℤ) → Result ℤ
int_of none sign = err value_error
int_of (some n) sign = ok (sign n)

signed_int : Text → Result ℤ
unfolding int_of digits_from
signed_int [] = err value_error
signed_int (c ∷ cs) =
    if c == b'-'
    then int_of (digits_from 0 false cs) (λ n. sub_ℕ 0 n)
    else if c == b'+'
    then int_of (digits_from 0 false cs) pos
    else int_of (digits_from 0 false (c ∷ cs)) pos

-- int(s) on ASCII text
unfoldable pub int : Text → Result ℤ
unfolding signed_int strip
int s = signed_int (strip s)

-- str(n) of a natural number: `fuel` bounds the digits, and there are at most `suc n` of them.
unfoldable pub decimal_from : ℕ → ℕ → Text
decimal_from zero n = []
decimal_from (suc fuel) n =
    let front = decimal_from fuel (n / 10) in
    if ltb n 10 then (48 + n) ∷ [] else front ++ ((48 + n % 10) ∷ [])

unfoldable pub decimal : ℕ → Text
unfolding decimal_from
decimal n = decimal_from (suc n) n

-- str(z)
unfoldable pub str_int : ℤ → Text
unfolding decimal
str_int (pos n) = decimal n
str_int (negsuc n) = b'-' ∷ decimal (suc n)

-- s.lower() on ASCII text
abbrev pub lower_char : ℕ → ℕ
lower_char c = if leb 65 c && leb c 90 then c + 32 else c

abbrev pub lower : Text → Text
lower s = map lower_char s

-- deque(maxlen=n).append
module _ {ℓ} {A : Type ℓ} where
  unfoldable pub push_bounded : ℕ → List A → A → List A
  push_bounded n xs x = drop (length (xs ++ (x ∷ [])) - n) (xs ++ (x ∷ []))
