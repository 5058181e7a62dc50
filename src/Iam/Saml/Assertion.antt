-- ===== src/Iam/Saml/Assertion.antt =====
-- redshift_connector/plugin/saml_credentials_provider.py: the roles of an assertion, in `refresh`, and
-- `read_metadata`, with the setters of redshift_connector/credentials_holder.py.
use mathlib.Core.List.{reverse}
use amazon_redshift_python_d.Prelude.{
  ℕ, Bool, false, not, ◌&&◌, ◌||◌, Option, none, some, List, [], ◌∷◌, ◌++◌, if◌then◌else◌,
}
use amazon_redshift_python_d.Prelude.Dict.{dict_set}
use amazon_redshift_python_d.Prelude.Result.{Result, ok, err, index_error, key_error, ◌>>=◌}
use amazon_redshift_python_d.Prelude.Text.{Text, codes, split, text_eq}
use amazon_redshift_python_d.Iam.Login.{IamMetadata}
use amazon_redshift_python_d.Iam.Serverless.{strip_prefix}

-- An element of the assertion, as bs4 finds it: its attribute Name, and the contents of the elements of
-- a name that it has.
pub record Tag : Type 0 where
  pub name : Option Text
  pub find : Text → List (List Text)

-- The elements of a name.
abbrev pub Document : Type 0
Document = Text → List Tag

-- What Unicode says of characters: \d, white space and str.lower.
pub record Unicode : Type 0 where
  pub is_decimal : ℕ → Bool
  pub is_white : ℕ → Bool
  pub lower_text : Text → Text

-- What re.compile(prefix \d* middle \S+).match says behind the prefix.
unfoldable pub behind_digits : Unicode → Text → Text → Bool
behind_digits F middle [] = elim (strip_prefix middle []) [
  | some (c ∷ s) ↦ not (F.is_white c)
  | _ ↦ false
]
behind_digits F middle (d ∷ rest) =
    (elim (strip_prefix middle (d ∷ rest)) [ some (c ∷ s) ↦ not (F.is_white c) | _ ↦ false ])
    || (F.is_decimal d && behind_digits F middle rest)

unfoldable pub is_arn : Unicode → Text → Text → Bool
unfolding behind_digits
is_arn F middle arn = elim (strip_prefix (codes "arn:aws:iam::") arn) [
  | none ↦ false
  | some rest ↦ behind_digits F middle rest
]

abbrev pub is_role : Unicode → Text → Bool
is_role F = is_arn F (codes ":role/")

abbrev pub is_provider : Unicode → Text → Bool
is_provider F = is_arn F (codes ":saml-provider/")

lstrip : Unicode → Text → Text
lstrip F [] = []
lstrip F (c ∷ s) = if F.is_white c then lstrip F s else c ∷ s

-- str.strip
unfoldable pub strip_white : Unicode → Text → Text
unfolding lstrip
strip_white F s = reverse (lstrip F (reverse (lstrip F s)))

-- The last role and the last provider of the parts of a value; "" if there is none.
unfoldable pub scan_arns : Unicode → Text → Text → List Text → Text × Text
unfolding strip_white is_arn
scan_arns F role provider [] = (role, provider)
scan_arns F role provider (part ∷ parts) =
    let arn = strip_white F part in
    scan_arns F (if is_role F arn then arn else role) (if is_provider F arn then arn else provider)
      parts

-- roles[role] = provider, where there are both.
unfoldable pub add_role : Text × Text → List (Text × Text) → List (Text × Text)
unfolding dict_set
add_role ([], provider) roles = roles
add_role (c ∷ role, []) roles = roles
add_role (c ∷ role, d ∷ provider) roles = dict_set (c ∷ role) (d ∷ provider) roles

unfoldable pub roles_of_values :
    Unicode → List (List Text) → List (Text × Text) → Result (List (Text × Text))
unfolding scan_arns add_role split
roles_of_values F [] roles = ok roles
roles_of_values F ([] ∷ values) roles = err index_error
roles_of_values F ((value ∷ contents) ∷ values) roles =
    roles_of_values F values (add_role (scan_arns F [] [] (split b',' value)) roles)

unfoldable pub tag_name : Tag → Result Text
tag_name tag = elim tag.name [ none ↦ err key_error | some name ↦ ok name ]

unfoldable pub read_roles : Unicode → List Tag → List (Text × Text) → Result (List (Text × Text))
unfolding roles_of_values tag_name
read_roles F [] roles = ok roles
read_roles F (tag ∷ tags) roles = do
  name ← tag_name tag
  more ←
      if text_eq name (codes "https://aws.amazon.com/SAML/Attributes/Role")
      then roles_of_values F (tag.find (codes "AttributeValue")) roles
      else ok roles
  read_roles F tags more

-- SAML_RESP_NAMESPACES: the first in which the document has attributes, else "saml2:" and no attributes.
unfoldable pub find_attributes : Document → List Text → Text × List Tag
find_attributes doc [] = (codes "saml2:", [])
find_attributes doc (namespace ∷ namespaces) = elim (doc (namespace ++ codes "Attribute")) [
  | [] ↦ find_attributes doc namespaces
  | (tag ∷ tags) ↦ (namespace, tag ∷ tags)
]

abbrev pub namespaces : List Text
namespaces = codes "saml2:" ∷ codes "saml:" ∷ [] ∷ []

-- [value.contents[0].lower() for value in values]
unfoldable pub lower_values : Unicode → List (List Text) → Result (List Text)
lower_values F [] = ok []
lower_values F ([] ∷ values) = err index_error
lower_values F ((value ∷ contents) ∷ values) = do
  rest ← lower_values F values
  ok (F.lower_text value ∷ rest)

-- set_auto_create and the like
pub is_yes : Unicode → Text → Bool
is_yes F value = text_eq (F.lower_text value) (codes "true")

abbrev pub redshift_claim : Text → Text
redshift_claim name = codes "https://redshift.amazon.com/SAML/Attributes/" ++ name

abbrev pub session_claim : Text
session_claim = codes "https://aws.amazon.com/SAML/Attributes/RoleSessionName"

-- RoleSessionName is the user where there is none yet.
unfoldable pub session_user : Text → Option Text → Option Text
session_user value none = some value
session_user value (some user) = some user

-- A claim with its first value, that value's text and all values.
unfoldable pub put_claim :
    Unicode → Text → Text → List (List Text) → IamMetadata → Result IamMetadata
unfolding lower_values is_yes session_user
put_claim F name value values m =
    if text_eq name (redshift_claim (codes "AllowDbUserOverride"))
    then ok (record m { allow_db_user_override = is_yes F value })
    else if text_eq name (redshift_claim (codes "DbUser"))
    then ok (record m { saml_db_user = some value })
    else if text_eq name session_claim
    then ok (record m { saml_db_user = session_user value m.saml_db_user })
    else if text_eq name (redshift_claim (codes "AutoCreate"))
    then ok (record m { auto_create = is_yes F value })
    else if text_eq name (redshift_claim (codes "DbGroups"))
    then (do groups ← lower_values F values; ok (record m { db_groups = groups }))
    else if text_eq name (redshift_claim (codes "ForceLowercase"))
    then ok (record m { force_lowercase = is_yes F value })
    else ok m

-- An attribute whose first value is empty is ignored.
unfoldable pub put_values : Unicode → Text → List (List Text) → IamMetadata → Result IamMetadata
unfolding put_claim
put_values F name [] m = ok m
put_values F name ([] ∷ values) m = ok m
put_values F name ((value ∷ contents) ∷ values) m =
    put_claim F name value ((value ∷ contents) ∷ values) m

unfoldable pub read_claims : Unicode → Text → List Tag → IamMetadata → Result IamMetadata
unfolding put_values tag_name
read_claims F namespace [] m = ok m
read_claims F namespace (tag ∷ tags) m = do
  name ← tag_name tag
  next ← put_values F name (tag.find (namespace ++ codes "AttributeValue")) m
  read_claims F namespace tags next

-- CredentialsHolder.IamMetadata()
abbrev pub no_metadata : IamMetadata
no_metadata = record {
  auto_create = false;
  db_user = none;
  saml_db_user = none;
  profile_db_user = none;
  db_groups = [];
  allow_db_user_override = false;
  force_lowercase = false;
}

unfoldable pub read_metadata : Unicode → Document → Result IamMetadata
unfolding find_attributes read_claims
read_metadata F doc =
    let (namespace, tags) = find_attributes doc namespaces in
    read_claims F namespace tags no_metadata
