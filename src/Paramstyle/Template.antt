-- ===== src/Paramstyle/Template.antt =====
-- `convert_paramstyle` in the style `named` against a specification over templates: a query is read
-- as a list of pieces, and each parameter becomes the number of the first place of its name.
pub mod Scan
use mathlib.Core.List.{head?, append_assoc, append-nil}
use amazon_redshift_python_d.Prelude.{
  ℕ, ◌+◌, ◌≡◌, ◌∙◌, inl, inr, refl, ap, Bool, true, false, ◌||◌, Option, none, some, List, [], ◌∷◌,
  ◌++◌, arith, ◌==◌, length, Bool-cases, All,
}
use amazon_redshift_python_d.Prelude.Result.{ok}
use amazon_redshift_python_d.Prelude.Text.{Text}
use amazon_redshift_python_d.Paramstyle.{
  named, State, outside, inside_sq, inside_qi, inside_es, inside_pn, inside_co, Scanner, is_char,
  dollar, index_of, scan, by_name, convert_paramstyle, step,
}

-- A character of no special meaning, '…', "…", a comment up to the end of its line, and :name.
pub data Piece : Type 0 where
  plain : ℕ → Piece
  quoted ident comment param : Text → Piece

abbrev pub render_piece : Piece → Text → Text
render_piece (plain c) rest = c ∷ rest
render_piece (quoted b) rest = b'\'' ∷ (b ++ (b'\'' ∷ rest))
render_piece (ident b) rest = b'"' ∷ (b ++ (b'"' ∷ rest))
render_piece (comment b) rest = b'-' ∷ b'-' ∷ (b ++ (b'\n' ∷ rest))
render_piece (param n) rest = b':' ∷ (n ++ rest)

unfoldable pub render : List Piece → Text
render [] = []
render (p ∷ ps) = render_piece p (render ps)

-- The number of a name, and the names after it.
number_of : List Text → Option ℕ → ℕ
number_of names (some k) = k + 1
number_of names none = length names + 1

names_after : List Text → Text → Option ℕ → List Text
names_after names n (some k) = names
names_after names n none = names ++ (n ∷ [])

-- The query that the server gets, from the names read before.
pub expand : List Text → List Piece → Text
unfolding number_of names_after index_of
expand names [] = []
expand names (param n ∷ ps) =
    dollar (number_of names (index_of n names))
    ++ expand (names_after names n (index_of n names)) ps
expand names (plain c ∷ ps) = render_piece (plain c) (expand names ps)
expand names (quoted b ∷ ps) = render_piece (quoted b) (expand names ps)
expand names (ident b ∷ ps) = render_piece (ident b) (expand names ps)
expand names (comment b ∷ ps) = render_piece (comment b) (expand names ps)

-- The names in the order of their first places.
pub names_of : List Text → List Piece → List Text
unfolding names_after index_of
names_of names [] = names
names_of names (param n ∷ ps) = names_of (names_after names n (index_of n names)) ps
names_of names (_ ∷ ps) = names_of names ps

module _ (isalnum : ℕ → Bool) where
  abbrev is_name_char : ℕ → Bool
  is_name_char c = isalnum c || c == b'_'

  -- The character behind a name does not go on with it.
  abbrev EndsName : Option ℕ → Type 0
  EndsName none = Unit {0}
  EndsName (some c) = is_name_char c ≡ false

  abbrev IsName : Text → Type 0
  IsName [] = ⊥
  IsName (c ∷ cs) =
      ((c == b'=') ≡ false) × All (λ d. (is_name_char d ≡ true) × ((d == b':') ≡ false)) (c ∷ cs)

  -- The text behind a piece must not join it.
  abbrev pub IsPiece : Piece → Text → Type 0
  IsPiece (plain c) rest =
      ((c == b'\'') ≡ false) × ((c == b'"') ≡ false) × ((c == b'-') ≡ false) × ((c == b':') ≡ false)
  IsPiece (quoted b) rest =
      All (λ c. ((c == b'\'') ≡ false) × ((c == b'\\') ≡ false)) b
      × (is_char (head? rest) b'\'' ≡ false)
  IsPiece (ident b) rest = All (λ c. (c == b'"') ≡ false) b
  IsPiece (comment b) rest = All (λ c. (c == b'\n') ≡ false) b
  IsPiece (param n) rest = IsName n × EndsName (head? rest)

  abbrev pub IsTemplate : List Piece → Type 0
  IsTemplate [] = Unit {0}
  IsTemplate (p ∷ ps) = IsPiece p (render ps) × IsTemplate ps
