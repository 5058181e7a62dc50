-- ===== src/Iam/Merge.antt =====
-- redshift_connector/redshift_property.py, `put_all`.
use mathlib.Core.Path.{subst}
use amazon_redshift_python_d.Prelude.{
  ◌≡◌, refl, sym, ◌∙◌, true, false, Option, none, some, [], ◌∷◌, ◌⊎◌, inl, inr, Bool-cases,
  if◌then◌else◌,
}
use amazon_redshift_python_d.Prelude.Dict.{
  dict_get, dict_set, dict_get-dict_set-eq, dict_get-dict_set-ne,
}
use amazon_redshift_python_d.Prelude.Result.{ok}
use amazon_redshift_python_d.Prelude.Text.{Text, codes, text_eq, text_eq_sound}
use amazon_redshift_python_d.Iam.Properties.{Attr, Info, put_all, set_attr}

-- The value of `other` where it has one.
pub or_else : Option Attr → Option Attr → Option Attr
or_else none v = v
or_else (some w) v = some w

-- No key stands twice.
unfoldable pub IsDict : Info → Type 0
IsDict [] = Unit {0}
IsDict ((k, v) ∷ rest) = (dict_get k rest ≡ none) × IsDict rest

not_found :
    (k key : Text) (v : Attr) (rest : Info)
    → dict_get key ((k, v) ∷ rest) ≡ none
    → (text_eq k key ≡ false) × (dict_get key rest ≡ none)
unfolding dict_get
not_found k key v rest e = elim (Bool-cases (text_eq k key)) [
  | inl same ↦ absurd (cc (subst (λ b. (if b then some v else dict_get key rest) ≡ none) same e))
  | inr other ↦ (other, subst (λ b. (if b then some v else dict_get key rest) ≡ none) other e)
]

-- The properties of a dict without the key is_serverless_host are merged: put_all succeeds, and each
-- attribute then has the value that the dict gives it, also where that is None, or else its own.
pub put_all-merges :
    (info other : Info)
    → IsDict other
    → dict_get (codes "is_serverless_host") other ≡ none
    → (merged : Info) × ((put_all info other ≡ ok merged)
        × ((key : Text) → dict_get key merged ≡ or_else (dict_get key other) (dict_get key info)))
unfolding put_all set_attr IsDict or_else dict_get
put_all-merges info [] dict settable = (info, (refl, λ key. refl))
put_all-merges info ((k, v) ∷ rest) (once, dict) settable =
    let (free, settable_rest) = not_found k (codes "is_serverless_host") v rest settable in
    let (merged, (done, values)) = put_all-merges (dict_set k v info) rest dict settable_rest in
    (merged, (rw free done, λ key. values key ∙ put_first key (Bool-cases (text_eq k key))))
  where
    put_first :
        (key : Text)
        → (text_eq k key ≡ true) ⊎ (text_eq k key ≡ false)
        → or_else (dict_get key rest) (dict_get key (dict_set k v info))
          ≡ or_else (if text_eq k key then some v else dict_get key rest) (dict_get key info)
    put_first key (inl same) =
        rw (same, sym (text_eq_sound k key same), once, dict_get-dict_set-eq k v info) refl
    put_first key (inr other) = rw (other, dict_get-dict_set-ne key k v info other) refl
