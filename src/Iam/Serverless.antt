-- ===== src/Iam/Serverless.antt =====
-- redshift_connector/redshift_property.py: SERVERLESS_HOST_PATTERN,
-- `(.+)\.(.+).redshift-serverless(-dev)?\.amazonaws\.com(.)*`, as `re.fullmatch` takes it.
use amazon_redshift_python_d.Prelude.{
  ℕ, Bool, true, false, not, ◌&&◌, ◌||◌, Option, none, some, [], ◌∷◌, ◌==◌, if◌then◌else◌, drop,
}
use amazon_redshift_python_d.Prelude.Text.{Text, codes}

-- The text behind a prefix.
unfoldable pub strip_prefix : Text → Text → Option Text
strip_prefix [] s = some s
strip_prefix (c ∷ p) [] = none
strip_prefix (c ∷ p) (d ∷ s) = if c == d then strip_prefix p s else none

-- `.` matches all but a line feed.
abbrev pub dot : ℕ → Bool
dot c = not (c == b'\n')

unfoldable pub dots : Text → Bool
dots [] = true
dots (c ∷ s) = dot c && dots s

-- `(-dev)?\.amazonaws\.com(.)*` to the end.
amazonaws : Option Text → Bool
unfolding strip_prefix dots
amazonaws none = false
amazonaws (some s) = elim (strip_prefix (codes ".amazonaws.com") s) [
  | none ↦ false
  | some rest ↦ dots rest
]

after_name : Option Text → Bool
unfolding amazonaws strip_prefix
after_name none = false
after_name (some s) = amazonaws (strip_prefix (codes "-dev") s) || amazonaws (some s)

-- `.redshift-serverless…`, whose first dot is any character.
unfoldable pub is_suffix : Text → Bool
unfolding after_name strip_prefix
is_suffix [] = false
is_suffix (c ∷ s) = dot c && after_name (strip_prefix (codes "redshift-serverless") s)

abbrev cons_first : ℕ → Option (Text × Text) → Option (Text × Text)
cons_first c none = none
cons_first c (some (first, rest)) = some (c ∷ first, rest)

-- The longest piece of one or more characters behind which `test` accepts the rest.
module _ (test : Text → Bool) where
  unfoldable pub longest : Text → Option (Text × Text)
  longest [] = none
  longest (c ∷ s) =
      let more = longest s in
      if dot c
      then elim more [
        | some found ↦ cons_first c (some found)
        | none ↦ if test s then some (c ∷ [], s) else none
      ]
      else none

-- The second group: the region, with the suffix behind it.
unfoldable pub region_of : Text → Option (Text × Text)
unfolding longest
region_of s = longest is_suffix s

behind_dot : Text → Bool
unfolding region_of
behind_dot [] = false
behind_dot (c ∷ s) =
    if c == b'.' then elim (region_of s) [ none ↦ false | some found ↦ true ] else false

-- The groups of the match: the account and the region.
unfoldable pub fullmatch : Text → Option (Text × Text)
unfolding behind_dot longest
fullmatch host = elim (longest behind_dot host) [
  | none ↦ none
  | some (account, rest) ↦ elim (region_of (drop 1 rest)) [
    | none ↦ none
    | some (region, suffix) ↦ some (account, region)
  ]
]
