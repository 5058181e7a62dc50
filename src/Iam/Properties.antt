-- ===== src/Iam/Properties.antt =====
-- redshift_connector/redshift_property.py: RedshiftProperty, its attributes kept by name.
use amazon_redshift_python_d.Prelude.{
  ◌+◌, Bool, true, false, not, Option, none, some, List, [], ◌∷◌, ◌==◌, if◌then◌else◌, length,
}
use amazon_redshift_python_d.Prelude.Dict.{dict_get, dict_set}
use amazon_redshift_python_d.Prelude.Int.{ℤ, pos, pos_part, neg_part}
use amazon_redshift_python_d.Prelude.Result.{Result, ok, err, attribute_error, type_error, ◌>>=◌}
use amazon_redshift_python_d.Prelude.Text.{Text, codes, text_eq}
use amazon_redshift_python_d.Iam.Serverless.{fullmatch}

-- A value: None, bool, int, str or a list of str.
pub data Attr : Type 0 where
  absent : Attr
  flag : Bool → Attr
  number : ℤ → Attr
  text : Text → Attr
  texts : List Text → Attr

abbrev pub Info : Type 0
Info = List (Text × Attr)

-- bool(value)
unfoldable pub is_true : Attr → Bool
is_true absent = false
is_true (flag b) = b
is_true (number z) = not (pos_part z + neg_part z == 0)
is_true (text t) = not (length t == 0)
is_true (texts ts) = not (length ts == 0)

abbrev pub is_absent : Attr → Bool
is_absent absent = true
is_absent v = false

-- `value is True`, `value is False`
abbrev pub is_flag : Bool → Attr → Bool
is_flag true (flag b) = b
is_flag false (flag b) = not b
is_flag b v = false

abbrev pub is_text : Attr → Text → Bool
is_text (text t) u = text_eq t u
is_text v u = false

unfoldable pub get : Text → Info → Result Attr
unfolding dict_get
get key info = elim (dict_get key info) [ none ↦ err attribute_error | some v ↦ ok v ]

-- setattr: the property is_serverless_host cannot be set.
unfoldable pub set_attr : Text → Attr → Info → Result Info
unfolding dict_set text_eq
set_attr key value info =
    if text_eq key (codes "is_serverless_host")
    then err attribute_error
    else ok (dict_set key value info)

-- `put` with the name of an attribute: None changes nothing.
unfoldable pub put : Text → Attr → Info → Info
unfolding dict_set
put key absent info = info
put key value info = dict_set key value info

unfoldable pub put_all : Info → Info → Result Info
unfolding set_attr
put_all info [] = ok info
put_all info ((k, v) ∷ other) = do next ← set_attr k v info; put_all next other

abbrev none_of : Text → Text × Attr
none_of key = (key, absent)

-- RedshiftProperty() without arguments.
unfoldable pub default_info : Info
default_info =
    none_of (codes "access_key_id")
    ∷ (codes "allow_db_user_override", flag false)
    ∷ none_of (codes "app_id")
    ∷ (codes "app_name", text (codes "amazon_aws_redshift"))
    ∷ none_of (codes "application_name")
    ∷ none_of (codes "auth_profile")
    ∷ (codes "auto_create", flag false)
    ∷ none_of (codes "client_id")
    ∷ (codes "client_protocol_version", number (pos 2))
    ∷ none_of (codes "client_secret")
    ∷ none_of (codes "cluster_identifier")
    ∷ none_of (codes "credentials_provider")
    ∷ (codes "database_metadata_current_db_only", flag true)
    ∷ (codes "db_groups", texts [])
    ∷ (codes "db_name", text [])
    ∷ none_of (codes "db_user")
    ∷ (codes "duration", number (pos 900))
    ∷ none_of (codes "endpoint_url")
    ∷ (codes "force_lowercase", flag false)
    ∷ (codes "host", text [])
    ∷ (codes "iam", flag false)
    ∷ (codes "iam_disable_cache", flag false)
    ∷ none_of (codes "idp_host")
    ∷ (codes "idp_response_timeout", number (pos 120))
    ∷ none_of (codes "idp_tenant")
    ∷ (codes "idpPort", number (pos 443))
    ∷ (codes "listen_port", number (pos 7890))
    ∷ none_of (codes "login_url")
    ∷ (codes "max_prepared_statements", number (pos 1000))
    ∷ none_of (codes "partner_sp_id")
    ∷ (codes "password", text [])
    ∷ (codes "port", number (pos 5439))
    ∷ none_of (codes "preferred_role")
    ∷ none_of (codes "principal")
    ∷ none_of (codes "profile")
    ∷ none_of (codes "region")
    ∷ none_of (codes "replication")
    ∷ none_of (codes "role_arn")
    ∷ none_of (codes "role_session_name")
    ∷ none_of (codes "secret_access_key")
    ∷ none_of (codes "session_token")
    ∷ none_of (codes "source_address")
    ∷ (codes "ssl", flag true)
    ∷ (codes "ssl_insecure", flag true)
    ∷ (codes "sslmode", text (codes "verify-ca"))
    ∷ (codes "tcp_keepalive", flag true)
    ∷ none_of (codes "timeout")
    ∷ none_of (codes "unix_sock")
    ∷ (codes "user_name", text [])
    ∷ none_of (codes "web_identity_token")
    ∷ none_of (codes "account_id")
    ∷ none_of (codes "provider_name")
    ∷ (codes "scope", text [])
    ∷ (codes "numeric_to_float", flag false)
    ∷ []

-- RedshiftProperty(**attributes)
unfoldable pub new_info : Info → Result Info
unfolding put_all default_info
new_info [] = ok default_info
new_info (entry ∷ attributes) = put_all [] (entry ∷ attributes)

-- is_serverless_host; str() of None, a bool or a number does not match, and that of a list is left out.
unfoldable pub host_match : Attr → Option (Text × Text)
unfolding fullmatch
host_match (text host) = fullmatch host
host_match host = none

unfoldable pub is_serverless_host : Info → Result Bool
unfolding host_match
is_serverless_host info = do
  host ← get (codes "host") info
  ok (elim (host_match host) [ none ↦ false | some groups ↦ true ])

-- What a group of the pattern says, by its key; fullmatch takes a str.
unfoldable pub put_group : Text → (Text × Text → Text) → Attr → Info → Result Info
unfolding fullmatch
put_group key part (text host) info =
    ok (elim (fullmatch host) [ none ↦ info | some groups ↦ put key (text (part groups)) info ])
put_group key part host info = err type_error

unfoldable pub set_account_id_from_host : Info → Result Info
unfolding put_group
set_account_id_from_host info = do
  host ← get (codes "host") info
  put_group (codes "account_id") (λ groups. groups.0) host info

unfoldable pub set_region_from_host : Info → Result Info
unfolding put_group
set_region_from_host info = do
  host ← get (codes "host") info
  put_group (codes "region") (λ groups. groups.1) host info
