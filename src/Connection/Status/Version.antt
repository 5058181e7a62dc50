-- ===== src/Connection/Status/Version.antt =====
-- distutils.version.LooseVersion, as `handle_PARAMETER_STATUS` uses it: the runs of digits, of small
-- letters and of other characters of a version, compared as Python compares lists.
use amazon_redshift_python_d.Prelude.{
  ℕ, ◌+◌, ◌-◌, ◌*◌, ◌≡◌, refl, Bool, true, false, ◌&&◌, ◌||◌, List, [], ◌∷◌, ltb, leb, ◌==◌,
  if◌then◌else◌,
}
use mathlib.Core.List.{reverse}
use amazon_redshift_python_d.Prelude.Result.{Result, ok, err, type_error, attribute_error}
use amazon_redshift_python_d.Prelude.Text.{Text, text_eq, is_digit}

pub data Part : Type 0 where
  number : ℕ → Part
  word : Text → Part

pub data Kind : Type 0 where
  digit letter point rest : Kind

abbrev kind : ℕ → Kind
kind c =
    if is_digit c
    then digit
    else if leb 97 c && leb c 122
    then letter
    else if c == b'.'
    then point
    else rest

abbrev same_kind : Kind → Kind → Bool
same_kind digit digit = true
same_kind letter letter = true
same_kind rest rest = true
same_kind _ _ = false

number_of : ℕ → Text → ℕ
number_of acc [] = acc
number_of acc (c ∷ cs) = number_of (acc * 10 + (c - 48)) cs

-- A finished run, whose characters are held in reverse; points are left out.
add_run : Kind → Text → List Part → List Part
unfolding number_of
add_run digit piece parts = number (number_of 0 (reverse piece)) ∷ parts
add_run letter piece parts = word (reverse piece) ∷ parts
add_run rest piece parts = word (reverse piece) ∷ parts
add_run point piece parts = parts

runs : Kind → Text → Text → List Part
unfolding add_run
runs k piece [] = add_run k piece []
runs k piece (c ∷ cs) =
    let more = runs (kind c) (if same_kind k (kind c) then c ∷ piece else c ∷ []) cs in
    if same_kind k (kind c) then more else add_run k piece more

unfoldable pub loose_version : Text → List Part
unfolding runs
loose_version [] = []
loose_version (c ∷ cs) = runs (kind c) (c ∷ []) cs

-- The parts of a version that are compared: LooseVersion parses no empty text, and the comparison then
-- raises AttributeError.
unfoldable pub version_parts : Text → Result (List Part)
version_parts [] = err attribute_error
version_parts (c ∷ cs) = ok (loose_version (c ∷ cs))

text_lt : Text → Text → Bool
text_lt [] [] = false
text_lt [] (d ∷ ds) = true
text_lt (c ∷ cs) [] = false
text_lt (c ∷ cs) (d ∷ ds) = ltb c d || (c == d && text_lt cs ds)

-- `<` on lists: the first elements that differ decide; a number and a word do not compare.
unfoldable pub version_lt : List Part → List Part → Result Bool
unfolding text_lt
version_lt [] [] = ok false
version_lt [] (q ∷ qs) = ok true
version_lt (p ∷ ps) [] = ok false
version_lt (number m ∷ ps) (number n ∷ qs) = if m == n then version_lt ps qs else ok (ltb m n)
version_lt (word s ∷ ps) (word t ∷ qs) = if text_eq s t then version_lt ps qs else ok (text_lt s t)
version_lt (number m ∷ ps) (word t ∷ qs) = err type_error
version_lt (word s ∷ ps) (number n ∷ qs) = err type_error

-- `8.0.2` is below `8.2.0` and `8.2.0` is not.
versions :
    (version_lt
        (loose_version (b'8' ∷ b'.' ∷ b'0' ∷ b'.' ∷ b'2' ∷ []))
        (loose_version (b'8' ∷ b'.' ∷ b'2' ∷ b'.' ∷ b'0' ∷ []))
      ≡ ok true)
    × (version_lt
          (loose_version (b'8' ∷ b'.' ∷ b'2' ∷ []))
          (loose_version (b'8' ∷ b'.' ∷ b'2' ∷ []))
        ≡ ok false)
unfolding version_lt loose_version
versions = (refl, refl)
