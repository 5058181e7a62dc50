-- ===== src/Iam/Saml/Roles.antt =====
-- The role that is assumed: `refresh`.
use mathlib.Core.List.{Memᴰ}
use mathlib.Core.Path.{subst}
use amazon_redshift_python_d.Prelude.{
  ◌≡◌, refl, sym, ap, ◌∙◌, Bool, true, false, some, List, [], ◌∷◌, ◌⊎◌, inl, inr, Bool-cases,
  if◌then◌else◌,
}
use amazon_redshift_python_d.Prelude.Dict.{
  dict_get, dict_set, dict_get-dict_set-eq, dict_get-dict_set-ne,
}
use amazon_redshift_python_d.Prelude.Result.{ok, >>=-eq-ok}
use amazon_redshift_python_d.Prelude.Text.{Text, codes, split, text_eq, text_eq_sound}
use amazon_redshift_python_d.Iam.Saml.Claims.{tag_name-called}
use amazon_redshift_python_d.Iam.Saml.Assertion.{
  Tag, Unicode, add_role, is_provider, is_role, read_roles, roles_of_values, scan_arns, strip_white,
  tag_name,
}

abbrev pub role_claim : Text
role_claim = codes "https://aws.amazon.com/SAML/Attributes/Role"

-- A part of a text, with the white space around it stripped.
pub IsPart : Unicode → Text → List Text → Type 0
IsPart F arn parts = (part : Text) × (Memᴰ part parts × (strip_white F part ≡ arn))

-- One value of a Role attribute names the role and the provider.
pub IsPaired : Unicode → List Tag → Text → Text → Type 0
IsPaired F tags role provider =
    (tag : Tag) × (value : Text) × (contents : List Text) × Memᴰ tag tags
    × (tag.name ≡ some role_claim)
    × Memᴰ (value ∷ contents) (tag.find (codes "AttributeValue"))
    × IsPart F role (split b',' value)
    × (is_role F role ≡ true)
    × IsPart F provider (split b',' value)
    × (is_provider F provider ≡ true)

-- Nothing yet, or a part that passes a test.
Good : Unicode → List Text → (Text → Bool) → Text → Type 0
Good F parts test arn = (arn ≡ []) ⊎ (IsPart F arn parts × (test arn ≡ true))

chosen-Good :
    (F : Unicode) (parts : List Text) (test : Text → Bool) (part arn : Text) (b : Bool)
    → test (strip_white F part) ≡ b
    → Memᴰ part parts
    → Good F parts test arn
    → Good F parts test (if b then strip_white F part else arn)
unfolding Good IsPart
chosen-Good F parts test part arn true e there good = inr ((part, (there, refl)), e)
chosen-Good F parts test part arn false e there good = good

scan_arns-Good :
    (F : Unicode) (all parts : List Text) (role provider : Text)
    → ((part : Text) → Memᴰ part parts → Memᴰ part all)
    → Good F all (is_role F) role
    → Good F all (is_provider F) provider
    → Good F all (is_role F) (scan_arns F role provider parts).0
      × Good F all (is_provider F) (scan_arns F role provider parts).1
unfolding scan_arns
scan_arns-Good F all [] role provider sub r p = (r, p)
scan_arns-Good F all (part ∷ parts) role provider sub r p =
    scan_arns-Good F all parts _ _ (λ q h. sub q (Memᴰ.tail h))
      (chosen-Good F all (is_role F) part role _ refl (sub part (Memᴰ.head refl)) r)
      (chosen-Good F all (is_provider F) part provider _ refl (sub part (Memᴰ.head refl)) p)

some-same : {x y : Text} → some x ≡ some y → x ≡ y
some-same e = cc e

ok-same : {x y : List (Text × Text)} → ok x ≡ ok y → x ≡ y
ok-same e = cc e

module _ (F : Unicode) (tags : List Tag) where
  Paired : List (Text × Text) → Type 0
  Paired roles =
      (role provider : Text) → dict_get role roles ≡ some provider → IsPaired F tags role provider

  dict_set-Paired :
      (role provider : Text) (roles : List (Text × Text))
      → IsPaired F tags role provider
      → Paired roles
      → Paired (dict_set role provider roles)
  unfolding Paired
  dict_set-Paired role provider roles pair paired key found e =
      elim (Bool-cases (text_eq role key)) [
        | inl same ↦
            let value : provider ≡ found = some-same (
              sym (dict_get-dict_set-eq role provider roles)
              ∙ subst (λ k. dict_get k (dict_set role provider roles) ≡ some found)
                  (sym (text_eq_sound role key same)) e) in
            subst (λ key. IsPaired F tags key found) (text_eq_sound role key same)
              (subst (IsPaired F tags role) value pair)
        | inr other ↦
            paired key found (sym (dict_get-dict_set-ne key role provider roles other) ∙ e)
      ]

  -- A value of a Role attribute.
  add_role-Paired :
      (tag : Tag) (value : Text) (contents : List Text) (role provider : Text)
      (roles : List (Text × Text))
      → Memᴰ tag tags
      → tag.name ≡ some role_claim
      → Memᴰ (value ∷ contents) (tag.find (codes "AttributeValue"))
      → Good F (split b',' value) (is_role F) role
      → Good F (split b',' value) (is_provider F) provider
      → Paired roles
      → Paired (add_role (role, provider) roles)
  unfolding add_role Good IsPaired
  add_role-Paired tag value contents [] provider roles t n v r p paired = paired
  add_role-Paired tag value contents (c ∷ role) [] roles t n v r p paired = paired
  add_role-Paired tag value contents (c ∷ role) (d ∷ provider) roles t n v (inl e) p paired =
      absurd (cc e)
  add_role-Paired tag value contents (c ∷ role) (d ∷ provider) roles t n v r (inl e) paired =
      absurd (cc e)
  add_role-Paired tag value contents (c ∷ role) (d ∷ provider) roles t n v (inr (r, is_r))
        (inr (p, is_p)) paired =
      dict_set-Paired (c ∷ role) (d ∷ provider) roles
        (tag, value, contents, t, n, v, r, is_r, p, is_p) paired

  roles_of_values-Paired :
      (tag : Tag) (values : List (List Text)) (roles found : List (Text × Text))
      → Memᴰ tag tags
      → tag.name ≡ some role_claim
      → ((v : List Text) → Memᴰ v values → Memᴰ v (tag.find (codes "AttributeValue")))
      → Paired roles
      → roles_of_values F values roles ≡ ok found
      → Paired found
  unfolding roles_of_values Good
  roles_of_values-Paired tag [] roles found t n sub paired e = subst Paired (ok-same e) paired
  roles_of_values-Paired tag ([] ∷ values) roles found t n sub paired e = cc
  roles_of_values-Paired tag ((value ∷ contents) ∷ values) roles found t n sub paired e =
      let (r, p) =
        scan_arns-Good F (split b',' value) (split b',' value) [] [] (λ q h. h) (inl refl)
          (inl refl) in
      roles_of_values-Paired tag values _ found t n (λ v h. sub v (Memᴰ.tail h))
        (add_role-Paired tag value contents _ _ roles t n (sub _ (Memᴰ.head refl)) r p paired) e

  read_roles-Paired :
      (rest : List Tag) (roles found : List (Text × Text))
      → ((tag : Tag) → Memᴰ tag rest → Memᴰ tag tags)
      → Paired roles
      → read_roles F rest roles ≡ ok found
      → Paired found
  unfolding read_roles
  read_roles-Paired [] roles found sub paired e = subst Paired (ok-same e) paired
  read_roles-Paired (tag ∷ rest) roles found sub paired e =
      let (name, is_name, e1) = >>=-eq-ok (tag_name tag) _ e in
      let (more, is_more, e2) =
        >>=-eq-ok
          (if text_eq name role_claim
            then roles_of_values F (tag.find (codes "AttributeValue")) roles
            else ok roles)
          _ e1 in
      read_roles-Paired rest more found (λ t h. sub t (Memᴰ.tail h))
        (elim (Bool-cases (text_eq name role_claim)) [
          | inl same ↦
              roles_of_values-Paired tag (tag.find (codes "AttributeValue")) roles more
                (sub tag (Memᴰ.head refl))
                (tag_name-called tag name is_name ∙ ap some (text_eq_sound name role_claim same))
                (λ v h. h) paired (rw same at is_more)
          | inr other ↦ subst Paired (ok-same (rw other at is_more)) paired
        ])
        e2

-- The roles of an assertion.
pub read_roles-IsPaired :
    (F : Unicode) (tags : List Tag) (roles : List (Text × Text)) (role provider : Text)
    → read_roles F tags [] ≡ ok roles
    → dict_get role roles ≡ some provider
    → IsPaired F tags role provider
unfolding Paired dict_get
read_roles-IsPaired F tags roles role provider e found =
    read_roles-Paired F tags tags [] roles (λ t h. h) (λ role provider e. absurd (cc e)) e role
      provider found
