-- ===== src/Iam/AuthProperties.antt =====
-- redshift_connector/idp_auth_helper.py: `set_auth_properties` and `read_auth_profile`.
use amazon_redshift_python_d.Prelude.{
  Bool, true, not, ◌&&◌, ◌||◌, List, [], ◌∷◌, ◌++◌, map, if◌then◌else◌,
}
use amazon_redshift_python_d.Prelude.Action.{pure, raise, lift, self, modify, ◌>>=◌, ◌>>◌}
use amazon_redshift_python_d.Prelude.Result.{
  Result, ok, err, index_error, interface_error, programming_error, client_error, value_error,
  type_error, version_conflict,
}
use amazon_redshift_python_d.Prelude.Text.{Text, codes}
use amazon_redshift_python_d.Iam.Properties.{
  Attr, Info, absent, text, texts, is_absent, is_flag, is_text, is_true, new_info, put_all,
}
use amazon_redshift_python_d.Iam.Login.{Outside, Task, attr, put_attr, serverless}

-- SupportedSSLMode.list()
abbrev pub is_supported : Attr → Bool
is_supported mode = is_text mode (codes "verify-ca") || is_text mode (codes "verify-full")

unfoldable pub set_sslmode : Task
set_sslmode = do
  ssl ← attr (codes "ssl")
  sslmode ← attr (codes "sslmode")
  if is_flag true ssl
      then if is_supported sslmode
        then pure tt
        else put_attr (codes "sslmode") (text (codes "verify-ca"))
      else put_attr (codes "sslmode") (text [])

unfoldable pub need_cluster : Task
need_cluster = do
  cluster ← attr (codes "cluster_identifier")
  on_serverless ← serverless
  if is_absent cluster && not on_serverless
      then raise (interface_error "cluster_identifier must be provided when IAM is enabled")
      else pure tt

-- The attributes that name AWS credentials, each by bool().
abbrev any_of : Bool → Bool → Bool → Bool
any_of a b c = a || (b || c)

unfoldable pub is_string : Attr → Task
is_string (text t) = pure tt
is_string v = raise (interface_error "It is not valid to provide a non-string value")

-- Which ways to get AWS credentials may be combined.
unfoldable pub check_credentials : Task
unfolding is_string
check_credentials = do
  provider ← attr (codes "credentials_provider")
  auth_profile ← attr (codes "auth_profile")
  key ← attr (codes "access_key_id")
  secret ← attr (codes "secret_access_key")
  token ← attr (codes "session_token")
  profile ← attr (codes "profile")
  password ← attr (codes "password")
  let keys_given = any_of (is_true key) (is_true secret) (is_true token)
  if not (is_absent provider)
      then if is_absent auth_profile && (keys_given || is_true profile)
        then raise (
            interface_error
              "It is not valid to provide both Credentials provider and AWS credentials")
        else is_string provider
      else if not (is_absent profile)
      then if is_absent auth_profile && keys_given
        then raise
            (interface_error "It is not valid to provide any of access_key_id with a profile")
        else pure tt
      else if not (is_absent key)
      then if not (is_absent secret)
        then pure tt
        else if is_text password []
        then raise (interface_error "secret access key must be provided")
        else put_attr (codes "secret_access_key") password
      else if not (is_absent secret)
      then raise (interface_error "access_key_id is required when secret_access_key is provided")
      else if not (is_absent token)
      then raise (interface_error "access_key_id and secret_access_key are required")
      else pure tt

-- With `info.iam is True`; the versions are read for the log.
unfoldable pub check_iam : Outside → Task
unfolding need_cluster check_credentials
check_iam F = do
  old ← lift F.boto3_old
  installed ← lift F.botocore
  need_cluster
  check_credentials

unfoldable pub lower_groups : Outside → Attr → Attr → Task
lower_groups F (texts groups) force_lowercase =
    if is_true (texts groups) && is_true force_lowercase
    then put_attr (codes "db_groups") (texts (map F.lower groups))
    else pure tt
lower_groups F (text group) force_lowercase =
    if is_true (text group) && is_true force_lowercase
    then put_attr (codes "db_groups") (texts (map (λ c. F.lower (c ∷ [])) group))
    else pure tt
lower_groups F groups force_lowercase =
    if is_true groups && is_true force_lowercase then raise type_error else pure tt

-- The dictionary for boto3: an optional value is left out where it is None or "".
unfoldable pub optional : Text → Attr → List (Text × Attr)
optional key value = if is_absent value || is_text value [] then [] else (key, value) ∷ []

unfoldable pub profile_creds : Attr → Attr → Attr → Attr → Attr → List (Text × Attr)
unfolding optional
profile_creds key secret region token endpoint =
    (codes "aws_access_key_id", key)
    ∷ (codes "aws_secret_access_key", secret)
    ∷ (codes "region_name", region)
    ∷ (optional (codes "aws_session_token") token ++ optional (codes "endpoint_url") endpoint)

-- The first profile, whose content is a JSON object.
unfoldable pub read_content : Result (List (Result Info)) → Result Info
unfolding new_info
read_content (err client_error) = err (interface_error "Unable to retrieve contents of the profile")
read_content (err e) = err e
read_content (ok []) = err index_error
read_content (ok (ok content ∷ profiles)) = new_info content
read_content (ok (err value_error ∷ profiles)) =
    err (programming_error "Unable to decode the JSON content of the profile")
read_content (ok (err e ∷ profiles)) = err e

-- info.put_all(resp)
unfoldable pub take_profile : Info → Task
take_profile resp = do
  login ← self
  merged ← lift (put_all login.info resp)
  modify (λ l. record l { info = merged })

unfoldable pub read_auth_profile : Outside → Attr → Task
unfolding take_profile read_content profile_creds
read_auth_profile F name = do
  key ← attr (codes "access_key_id")
  secret ← attr (codes "secret_access_key")
  region ← attr (codes "region")
  token ← attr (codes "session_token")
  endpoint ← attr (codes "endpoint_url")
  resp ←
      lift
        (read_content (F.describe_profiles (profile_creds key secret region token endpoint) name))
  take_profile resp

unfoldable pub use_profile : Outside → Attr → Task
unfolding read_auth_profile
use_profile F absent = pure tt
use_profile F profile = do
  old ← lift F.boto3_old
  key ← attr (codes "access_key_id")
  secret ← attr (codes "secret_access_key")
  region ← attr (codes "region")
  if old
      then raise version_conflict
      else if not (is_true key && (is_true secret && is_true region))
      then raise (interface_error "access_key_id, secret_access_key, and region are required")
      else read_auth_profile F profile

unfoldable pub set_auth_properties : Outside → Task
unfolding set_sslmode check_iam lower_groups use_profile
set_auth_properties F = do
  set_sslmode
  iam ← attr (codes "iam")
  if is_flag true iam then check_iam F else pure tt
  groups ← attr (codes "db_groups")
  force_lowercase ← attr (codes "force_lowercase")
  lower_groups F groups force_lowercase
  auth_profile ← attr (codes "auth_profile")
  use_profile F auth_profile
