-- ===== src/Iam/Saml/Claims.antt =====
-- The user that an assertion names: `read_metadata`.
use mathlib.Core.Path.{subst}
use amazon_redshift_python_d.Prelude.{
  ◌≢◌, ◌⊎◌, inl, inr, ◌≡◌, refl, sym, ap, ◌∙◌, Bool, true, false, Option, none, some, List, [], ◌∷◌,
  ◌++◌, if◌then◌else◌,
}
use amazon_redshift_python_d.Prelude.Result.{Result, ok, err, key_error, ◌>>=◌, >>=-eq-ok}
use amazon_redshift_python_d.Prelude.Text.{Text, codes, text_eq, text_eq_sound}
use amazon_redshift_python_d.Iam.Login.{IamMetadata}
use amazon_redshift_python_d.Iam.Saml.Assertion.{
  Document, Tag, Unicode, find_attributes, lower_values, namespaces, no_metadata, put_claim,
  put_values, read_claims, read_metadata, redshift_claim, session_claim, session_user, tag_name,
  is_yes,
}

-- The first values of the attributes of a name, but for the empty ones.
first_text : List (List Text) → List Text
first_text [] = []
first_text ([] ∷ values) = []
first_text ((value ∷ contents) ∷ values) = value ∷ []

if_called : Text → Option Text → List Text → List Text
if_called wanted none values = []
if_called wanted (some name) values = if text_eq name wanted then values else []

pub values_of : Text → Text → List Tag → List Text
values_of wanted namespace [] = []
values_of wanted namespace (tag ∷ tags) =
    if_called wanted tag.name (first_text (tag.find (namespace ++ codes "AttributeValue")))
    ++ values_of wanted namespace tags

-- The last user, else the first session name.
last_of : Option Text → List Text → Option Text
last_of user [] = user
last_of user (value ∷ values) = last_of (some value) values

first_session : Option Text → List Text → Option Text
first_session (some user) sessions = some user
first_session none [] = none
first_session none (value ∷ values) = some value

pub saml_user : Option Text → List Text → List Text → Option Text
saml_user user users sessions = last_of (first_session user sessions) users

-- What a claim leaves as the user.
Leaves : Option Text → Result IamMetadata → Type 0
Leaves user (ok m) = m.saml_db_user ≡ user
Leaves user (err e) = Unit {0}

after_claim : Bool → Bool → Text → Option Text → Option Text
after_claim true session value user = some value
after_claim false true value user = session_user value user
after_claim false false value user = user

claim-Leaves :
    (F : Unicode) (value : Text) (m : IamMetadata) (override db session auto group force : Bool)
    (groups : Result (List Text))
    → (override ≡ true → (db ≡ false) × (session ≡ false))
    → Leaves (after_claim db session value m.saml_db_user) (
        if override
        then ok (record m { allow_db_user_override = is_yes F value })
        else if db
        then ok (record m { saml_db_user = some value })
        else if session
        then ok (record m { saml_db_user = session_user value m.saml_db_user })
        else if auto
        then ok (record m { auto_create = is_yes F value })
        else if group
        then (do names ← groups; ok (record m { db_groups = names }))
        else if force
        then ok (record m { force_lowercase = is_yes F value })
        else ok m)
unfolding Leaves after_claim
claim-Leaves F value m true db session auto group force groups apart =
    rw ((apart refl).0, (apart refl).1) refl
claim-Leaves F value m false true session auto group force groups apart = refl
claim-Leaves F value m false false true auto group force groups apart = refl
claim-Leaves F value m false false false true group force groups apart = refl
claim-Leaves F value m false false false false true force (ok groups) apart = refl
claim-Leaves F value m false false false false true force (err e) apart = tt
claim-Leaves F value m false false false false false true groups apart = refl
claim-Leaves F value m false false false false false false groups apart = refl

apart :
    (name : Text)
    → text_eq name (redshift_claim (codes "AllowDbUserOverride")) ≡ true
    → (text_eq name (redshift_claim (codes "DbUser")) ≡ false)
      × (text_eq name session_claim ≡ false)
unfolding text_eq
apart name e = rw (text_eq_sound name (redshift_claim (codes "AllowDbUserOverride")) e) (refl, refl)

put_claim-Leaves :
    (F : Unicode) (name value : Text) (values : List (List Text)) (m : IamMetadata)
    → Leaves
        (after_claim
          (text_eq name (redshift_claim (codes "DbUser")))
          (text_eq name session_claim)
          value
          m.saml_db_user)
        (put_claim F name value values m)
unfolding put_claim
put_claim-Leaves F name value values m =
    claim-Leaves F value m _ _ _ _ _ _ (lower_values F values) (apart name)

-- The claims that are left add to it.
added :
    (db session : Bool) (value : Text) (user : Option Text) (users sessions : List Text)
    → saml_user (after_claim db session value user) users sessions
      ≡ saml_user user
          ((if db then value ∷ [] else []) ++ users)
          ((if session then value ∷ [] else []) ++ sessions)
unfolding saml_user last_of first_session after_claim session_user
added true session value user users sessions = refl
added false true value none users sessions = refl
added false true value (some u) users sessions = refl
added false false value user users sessions = refl

unnamed :
    (db session : Bool) (user : Option Text) (users sessions : List Text)
    → saml_user user users sessions
      ≡ saml_user user ((if db then [] else []) ++ users) ((if session then [] else []) ++ sessions)
unnamed true true user users sessions = refl
unnamed true false user users sessions = refl
unnamed false true user users sessions = refl
unnamed false false user users sessions = refl

put_values-user :
    (F : Unicode) (name : Text) (values : List (List Text)) (m next : IamMetadata)
    (users sessions : List Text)
    → put_values F name values m ≡ ok next
    → saml_user next.saml_db_user users sessions
      ≡ saml_user m.saml_db_user
          (if_called (redshift_claim (codes "DbUser")) (some name) (first_text values) ++ users)
          (if_called session_claim (some name) (first_text values) ++ sessions)
unfolding put_values if_called first_text Leaves
put_values-user F name [] m next users sessions e =
    ap (λ u. saml_user u users sessions) (subst (Leaves m.saml_db_user) e refl)
    ∙ unnamed (text_eq name (redshift_claim (codes "DbUser"))) (text_eq name session_claim)
        m.saml_db_user users sessions
put_values-user F name ([] ∷ values) m next users sessions e =
    ap (λ u. saml_user u users sessions) (subst (Leaves m.saml_db_user) e refl)
    ∙ unnamed (text_eq name (redshift_claim (codes "DbUser"))) (text_eq name session_claim)
        m.saml_db_user users sessions
put_values-user F name ((value ∷ contents) ∷ values) m next users sessions e =
    ap (λ u. saml_user u users sessions)
      (subst
        (Leaves (
          after_claim (text_eq name (redshift_claim (codes "DbUser"))) (text_eq name session_claim)
            value m.saml_db_user))
        e (put_claim-Leaves F name value ((value ∷ contents) ∷ values) m))
    ∙ added (text_eq name (redshift_claim (codes "DbUser"))) (text_eq name session_claim) value
        m.saml_db_user users sessions

settled : (user : Option Text) → user ≡ saml_user user [] []
unfolding saml_user last_of first_session
settled none = refl
settled (some user) = refl

pub tag_name-called : (tag : Tag) (name : Text) → tag_name tag ≡ ok name → tag.name ≡ some name
unfolding tag_name
tag_name-called tag name e = known tag.name e
  where
    known :
        (o : Option Text)
        → elim o as (λ o. Result Text) [ none ↦ err key_error | some name ↦ ok name ] ≡ ok name
        → o ≡ some name
    known none e = cc e
    known (some t) e = cc e

read_claims-user :
    (F : Unicode) (namespace : Text) (tags : List Tag) (m last : IamMetadata)
    → read_claims F namespace tags m ≡ ok last
    → last.saml_db_user
      ≡ saml_user m.saml_db_user
          (values_of (redshift_claim (codes "DbUser")) namespace tags)
          (values_of session_claim namespace tags)
unfolding read_claims values_of Leaves
read_claims-user F namespace [] m last e =
    subst (Leaves m.saml_db_user) e refl ∙ settled m.saml_db_user
read_claims-user F namespace (tag ∷ tags) m last e =
    let (name, is_name, e1) = >>=-eq-ok (tag_name tag) _ e in
    let (next, put_next, e2) =
      >>=-eq-ok (put_values F name (tag.find (namespace ++ codes "AttributeValue")) m) _ e1 in
    read_claims-user F namespace tags next last e2
    ∙ (put_values-user F name (tag.find (namespace ++ codes "AttributeValue")) m next _ _ put_next
        ∙ ap
            (λ o.
              saml_user m.saml_db_user
                (if_called (redshift_claim (codes "DbUser")) o
                    (first_text (tag.find (namespace ++ codes "AttributeValue")))
                  ++ values_of (redshift_claim (codes "DbUser")) namespace tags)
                (if_called session_claim o
                    (first_text (tag.find (namespace ++ codes "AttributeValue")))
                  ++ values_of session_claim namespace tags))
            (sym (tag_name-called tag name is_name)))

-- The attributes of "saml2:Attribute" elements if there are any, else of "saml:Attribute", else of
-- "Attribute"; the values are searched for in the same namespace.
pub IsFirst : Document → Text → List Tag → Type 0
IsFirst doc namespace tags =
    ((tags ≢ []) × (namespace ≡ codes "saml2:") × (doc (codes "saml2:Attribute") ≡ tags))
    ⊎ (((doc (codes "saml2:Attribute") ≡ [])
          × (tags ≢ [])
          × (namespace ≡ codes "saml:")
          × (doc (codes "saml:Attribute") ≡ tags))
        ⊎ ((doc (codes "saml2:Attribute") ≡ [])
            × (doc (codes "saml:Attribute") ≡ [])
            × ((tags ≡ []) ⊎ (namespace ≡ []))
            × (doc (codes "Attribute") ≡ tags)))

find_attributes-IsFirst :
    (doc : Document)
    → IsFirst doc (find_attributes doc namespaces).0 (find_attributes doc namespaces).1
unfolding find_attributes IsFirst
find_attributes-IsFirst doc =
    first (doc (codes "saml2:Attribute")) (doc (codes "saml:Attribute")) (doc (codes "Attribute"))
      refl refl refl
  where
    first :
        (xs ys zs : List Tag)
        → doc (codes "saml2:Attribute") ≡ xs
        → doc (codes "saml:Attribute") ≡ ys
        → doc (codes "Attribute") ≡ zs
        → IsFirst doc (find_attributes doc namespaces).0 (find_attributes doc namespaces).1
    first (t ∷ xs) ys zs p q r = rw p (inl (cc, refl, refl))
    first [] (t ∷ ys) zs p q r = rw (p, q) (inr (inl (refl, cc, refl, refl)))
    first [] [] (t ∷ zs) p q r = rw (p, q, r) (inr (inr (refl, refl, inr refl, refl)))
    first [] [] [] p q r = rw (p, q, r) (inr (inr (refl, refl, inl refl, refl)))

-- When read_metadata returns, it has read the attributes of the first of the namespaces saml2, saml and
-- none that has any. The user that it gives is the last one that a DbUser attribute among them names, or else
-- the first that a RoleSessionName attribute names, in whatever order they stand; attributes with an
-- empty first value do not count.
pub read_metadata-user :
    (F : Unicode) (doc : Document) (m : IamMetadata)
    → read_metadata F doc ≡ ok m
    → (namespace : Text) × (tags : List Tag) × IsFirst doc namespace tags
      × (m.saml_db_user
          ≡ saml_user none
              (values_of (redshift_claim (codes "DbUser")) namespace tags)
              (values_of session_claim namespace tags))
unfolding read_metadata
read_metadata-user F doc m e =
    let (namespace, tags) = find_attributes doc namespaces in
    (
      namespace,
      tags,
      find_attributes-IsFirst doc,
      read_claims-user F namespace tags no_metadata m e,
    )
