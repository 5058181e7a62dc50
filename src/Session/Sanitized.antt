-- ===== src/Session/Sanitized.antt =====
-- A name that is quoted for a catalog query, as a reader of SQL takes it.
use amazon_redshift_python_d.Prelude.{
  ℕ, ◌≢◌, Bool, true, false, Option, none, some, List, [], ◌∷◌, ◌==◌,
}
use amazon_redshift_python_d.Prelude.Text.{Text, codes}

-- Where a reader of a string literal is: inside it, behind a quote that ends it unless another follows,
-- or behind a backslash.
pub data Place : Type 0 where
  inside quote_seen escaped : Place

add : ℕ → Option (Text × Text) → Option (Text × Text)
add c none = none
add c (some (value, rest)) = some (c ∷ value, rest)

-- The value of a literal and what follows it; none if it does not end.
unfoldable pub read_from : Place → Text → Option (Text × Text)
unfolding add
read_from inside [] = none
read_from inside (c ∷ s) = elim (c == b'\'') [
  | true ↦ read_from quote_seen s
  | false ↦ elim (c == b'\\') [ true ↦ read_from escaped s | false ↦ add c (read_from inside s) ]
]
read_from quote_seen [] = some ([], [])
read_from quote_seen (c ∷ s) = elim (c == b'\'') [
  | true ↦ add c (read_from inside s)
  | false ↦ some ([], c ∷ s)
]
read_from escaped [] = none
read_from escaped (c ∷ s) = add c (read_from inside s)

unfoldable pub read_literal : Text → Option (Text × Text)
unfolding read_from
read_literal [] = none
read_literal (c ∷ s) = elim (c == b'\'') [ true ↦ read_from inside s | false ↦ none ]

abbrev pub starts_with_quote : Text → Bool
starts_with_quote [] = false
starts_with_quote (c ∷ s) = c == b'\''

abbrev pub IsPlain : ℕ → Type 0
IsPlain c = c ≢ b'\\'

-- What a name must not have to be taken as it is.
abbrev pub special : Text
special = codes "-;/'\"\n\r "
