-- ===== src/Prelude/Dict.antt =====
-- Python's dict with text keys, in the order of insertion.
use mathlib.Core.List.{List, [], ◌∷◌}
use mathlib.Core.Option.{Option, none, some}
use mathlib.Core.Bool.{false}
use mathlib.Core.Logic.{inl, inr}
use mathlib.Core.Path.{◌≡◌, refl, ap, subst}
use amazon_redshift_python_d.Prelude.Tests.{if◌then◌else◌, Bool-cases}
use amazon_redshift_python_d.Prelude.Text.{Text, text_eq, text_eq_refl, text_eq_sound}

module _ {V : Type 0} where
  unfoldable pub dict_get : Text → List (Text × V) → Option V
  unfolding text_eq
  dict_get k [] = none
  dict_get k ((j, v) ∷ d) = if text_eq j k then some v else dict_get k d

  unfoldable pub dict_set : Text → V → List (Text × V) → List (Text × V)
  unfolding text_eq
  dict_set k v [] = (k, v) ∷ []
  dict_set k v ((j, w) ∷ d) = if text_eq j k then (j, v) ∷ d else (j, w) ∷ dict_set k v d

  unfoldable pub dict_of : List (Text × V) → List (Text × V) → List (Text × V)
  unfolding dict_set
  dict_of d [] = d
  dict_of d ((k, v) ∷ rest) = dict_of (dict_set k v d) rest

  pub dict_get-dict_set-eq :
      (k : Text) (v : V) (d : List (Text × V)) → dict_get k (dict_set k v d) ≡ some v
  unfolding dict_get dict_set
  dict_get-dict_set-eq k v [] = rw (text_eq_refl k) refl
  dict_get-dict_set-eq k v ((j, w) ∷ d) = elim (Bool-cases (text_eq j k)) [
    | inl same ↦ rw (same, same) refl
    | inr other ↦ rw (other, other) (dict_get-dict_set-eq k v d)
  ]

  -- A key of its own is not touched.
  pub dict_get-dict_set-ne :
      (m k : Text) (v : V) (d : List (Text × V))
      → text_eq k m ≡ false
      → dict_get m (dict_set k v d) ≡ dict_get m d
  unfolding dict_get dict_set
  dict_get-dict_set-ne m k v [] ne = rw ne refl
  dict_get-dict_set-ne m k v ((j, w) ∷ d) ne = elim (Bool-cases (text_eq j k)) [
    | inl same ↦ rw (same, text_eq_sound j k same, ne) refl
    | inr other ↦ rw (other, dict_get-dict_set-ne m k v d ne) refl
  ]

  -- A value that is there already changes nothing.
  pub dict_set-same :
      (k : Text) (v : V) (d : List (Text × V)) → dict_get k d ≡ some v → dict_set k v d ≡ d
  unfolding dict_get dict_set
  dict_set-same k v [] e = cc e
  dict_set-same k v ((j, w) ∷ d) e = elim (Bool-cases (text_eq j k)) [
    | inl same ↦
        let found : some w ≡ some v =
          subst (λ b. (if b then some w else dict_get k d) ≡ some v) same e in
        rw same cc
    | inr other ↦ rw other (
        ap (λ d. (j, w) ∷ d)
          (dict_set-same k v d
            (subst (λ b. (if b then some w else dict_get k d) ≡ some v) other e)))
  ]
