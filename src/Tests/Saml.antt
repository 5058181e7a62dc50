-- ===== src/Tests/Saml.antt =====
-- Tests of the SAML provider.
use amazon_redshift_python_d.Prelude.{
  ◌≡◌, refl, Bool, true, false, ◌&&◌, none, some, List, [], ◌∷◌, ◌++◌, ◌==◌, if◌then◌else◌, leb,
}
use amazon_redshift_python_d.Prelude.Int.{pos}
use amazon_redshift_python_d.Prelude.Result.{ok}
use amazon_redshift_python_d.Prelude.Text.{Text, codes, text_eq, split}
use amazon_redshift_python_d.Iam.Login.{IamMetadata}
use amazon_redshift_python_d.Iam.Properties.{absent, number, text}
use amazon_redshift_python_d.Iam.Saml.Assertion.{
  Document, Tag, Unicode, find_attributes, namespaces, no_metadata, read_metadata, redshift_claim,
  session_claim,
}
use amazon_redshift_python_d.Iam.Saml.Cached.{get_saml_credentials-again}
use amazon_redshift_python_d.Iam.Saml.Claims.{IsFirst, read_metadata-user, saml_user, values_of}
use amazon_redshift_python_d.Iam.Saml.Provider.{
  SamlCred, SamlOutside, SamlProvider, StsCred, get_saml_credentials, refresh,
}
use amazon_redshift_python_d.Iam.Saml.Refresh.{Preferred, refresh-IsPaired}
use amazon_redshift_python_d.Iam.Saml.Roles.{IsPaired, role_claim}

abbrev unicode : Unicode
unicode = record {
  is_decimal = λ c. leb 48 c && leb c 57;
  is_white = λ c. c == 32;
  lower_text = λ t. t;
}

-- An attribute with one value.
abbrev tag_of : Text → Text → Tag
tag_of name value = record { name = some name; find = λ element. (value ∷ []) ∷ [] }

abbrev tags : List Tag
tags =
    tag_of session_claim (codes "ann")
    ∷ tag_of (redshift_claim (codes "DbUser")) (codes "bob")
    ∷ tag_of role_claim (codes "arn:aws:iam::1:role/r, arn:aws:iam::1:saml-provider/p")
    ∷ []

abbrev document : Document
document name = if text_eq name (codes "Attribute") then tags else []

abbrev sts_cred : StsCred
sts_cred = record {
  access_key = codes "k";
  secret_key = codes "s";
  session_token = codes "t";
  expires = pos 900;
}

abbrev saml_outside : SamlOutside
saml_outside = record {
  unicode = unicode;
  choice = λ roles. codes "arn:aws:iam::1:role/r";
  get_saml_assertion = λ n. ok (codes "assertion");
  soup = λ assertion. ok document;
  assume_role = λ role principal assertion. ok sts_cred;
  time = pos 100;
  repr_list = λ ts. codes "[]";
}

abbrev saml_provider : SamlProvider
saml_provider = record {
  user_name = text (codes "ann");
  password = text (codes "pw");
  idp_host = text (codes "idp");
  idp_port = number (pos 443);
  duration = number (pos 900);
  preferred_role = absent;
  db_user = text (codes "eve");
  cache = [];
  calls = 0;
  assumed = [];
}

abbrev metadata : IamMetadata
metadata = record no_metadata { saml_db_user = some (codes "bob") }

read_metadata-user_example :
    (namespace : Text) × (attributes : List Tag) × IsFirst document namespace attributes
    × (some (codes "bob")
        ≡ saml_user none
            (values_of (redshift_claim (codes "DbUser")) namespace attributes)
            (values_of session_claim namespace attributes))
unfolding read_metadata text_eq
read_metadata-user_example = read_metadata-user unicode document metadata refl

abbrev refreshed : SamlProvider
refreshed = (refresh saml_outside saml_provider).1

refresh-IsPaired_example :
    (role : Text) × (principal : Text) × (assertion : Text) × (doc : Document) × (refreshed.assumed
      ≡ (role, principal) ∷ [])
    × (ok (codes "assertion") ≡ ok assertion)
    × (ok document ≡ ok doc)
    × IsPaired unicode (doc (codes "Attribute")) role principal
    × Preferred absent role
unfolding refresh amazon_redshift_python_d.Iam.Saml.Assertion.read_roles
    amazon_redshift_python_d.Iam.Serverless.strip_prefix
    amazon_redshift_python_d.Iam.Properties.is_true amazon_redshift_python_d.Prelude.Dict.dict_get
    read_metadata
refresh-IsPaired_example = refresh-IsPaired saml_outside saml_provider refreshed refl

abbrev saml_cred : SamlCred
saml_cred = record { sts = sts_cred; metadata = record metadata { db_user = some (codes "eve") } }

abbrev after_credentials : SamlProvider
after_credentials = (get_saml_credentials saml_outside saml_provider).1

get_saml_credentials-again_example :
    get_saml_credentials (record saml_outside { time = pos 800 }) after_credentials
    ≡ (ok saml_cred, after_credentials)
unfolding get_saml_credentials amazon_redshift_python_d.Prelude.Dict.dict_get
    amazon_redshift_python_d.Iam.Saml.Assertion.read_roles
    amazon_redshift_python_d.Iam.Serverless.strip_prefix
    amazon_redshift_python_d.Iam.Properties.is_true read_metadata
    amazon_redshift_python_d.Prelude.Text.str_int
get_saml_credentials-again_example =
    get_saml_credentials-again saml_outside (pos 800) saml_provider after_credentials saml_cred refl
      refl
