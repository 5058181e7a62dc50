-- ===== src/Iam/Reads.antt =====
-- Actions of a login that only read keep any predicate on its state.
use amazon_redshift_python_d.Prelude.{◌≡◌, Bool, true, false, List, Option, none, some}
use amazon_redshift_python_d.Prelude.Keeps.{Keeps, each, keeping}
use amazon_redshift_python_d.Prelude.Dict.{dict_get}
use amazon_redshift_python_d.Prelude.Result.{Result, ok, err, attribute_error}
use amazon_redshift_python_d.Prelude.Text.{Text}
use amazon_redshift_python_d.Iam.CacheKey.{attr_or, key_of}
use amazon_redshift_python_d.Iam.ClusterCredentials.{request_of}
use amazon_redshift_python_d.Iam.Login.{
  Login, Provider, attr, info_attr, info_serverless, serverless,
}
use amazon_redshift_python_d.Iam.Properties.{Attr, Info, get}

module _ {P : Login → Type 0} where
  pub attr-Keeps : (key : Text) → Keeps P (attr key)
  unfolding attr
  attr-Keeps key = each (λ l h. h)

  pub serverless-Keeps : Keeps P serverless
  unfolding serverless
  serverless-Keeps = each (λ l h. h)

  pub request_of-Keeps : (on_serverless : Bool) → Keeps P (request_of on_serverless)
  unfolding request_of
  request_of-Keeps true = search (keeping, attr-Keeps) depth 10
  request_of-Keeps false = search (keeping, attr-Keeps) depth 20

module _ {P : Info → Type 0} where
  pub info_attr-Keeps : (key : Text) → Keeps P (info_attr key)
  unfolding info_attr
  info_attr-Keeps key = each (λ i h. h)

  info_serverless-Keeps : Keeps P info_serverless
  unfolding info_serverless
  info_serverless-Keeps = each (λ i h. h)

  attr_or-Keeps : (key other : Text) → Keeps P (attr_or key other)
  unfolding attr_or
  attr_or-Keeps key other = search (keeping, info_attr-Keeps) depth 10

  pub key_of-Keeps :
      (repr : List Text → Text) (provider : Provider) (groups : Text)
      → Keeps P (key_of repr provider groups)
  unfolding key_of
  key_of-Keeps repr provider groups =
      search (keeping, info_attr-Keeps, info_serverless-Keeps, attr_or-Keeps) depth 60

pub ruleset reading = (keeping, attr-Keeps, serverless-Keeps, request_of-Keeps)

-- A value that is read is in the properties.
pub get-ok :
    (key : Text) (info : Info) (v : Attr) → get key info ≡ ok v → dict_get key info ≡ some v
unfolding get
get-ok key info v e = found (dict_get key info) e
  where
    found :
        (o : Option Attr)
        → elim o as (λ o. Result Attr) [ none ↦ err attribute_error | some v ↦ ok v ] ≡ ok v
        → o ≡ some v
    found none e = cc e
    found (some w) e = cc e
