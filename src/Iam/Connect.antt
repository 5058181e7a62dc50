-- ===== src/Iam/Connect.antt =====
-- redshift_connector/__init__.py, `connect`, up to the call of Connection; and
-- redshift_connector/iam_helper.py, `set_iam_properties`.
use amazon_redshift_python_d.Prelude.{
  Bool, true, false, ◌&&◌, none, some, List, [], ◌∷◌, if◌then◌else◌, leb,
}
use amazon_redshift_python_d.Prelude.Action.{pure, raise, lift, self, modify, ◌>>=◌, ◌>>◌}
use amazon_redshift_python_d.Prelude.Dict.{dict_get}
use amazon_redshift_python_d.Prelude.Int.{pos}
use amazon_redshift_python_d.Prelude.Result.{Result, interface_error, programming_error}
use amazon_redshift_python_d.Prelude.Text.{Text, codes}
use amazon_redshift_python_d.Iam.AuthProperties.{need_cluster, set_auth_properties}
use amazon_redshift_python_d.Iam.ClusterCredentials.{set_cluster_credentials}
use amazon_redshift_python_d.Iam.Login.{Outside, Task, attr, serverless}
use amazon_redshift_python_d.Iam.Plugins.{
  choose_provider, set_native_auth_plugin_properties, use_metadata,
}
use amazon_redshift_python_d.Iam.Properties.{
  Attr, Info, absent, flag, is_flag, is_text, is_true, number, put, set_account_id_from_host,
  set_region_from_host,
}

unfoldable pub set_iam_credentials : Outside → Task
set_iam_credentials F = do
  provider ← choose_provider F
  use_metadata F provider
  if provider.is_native_plugin then pure tt else set_cluster_credentials F provider

-- A method of the properties that may raise.
abbrev pub on_properties : (Info → Result Info) → Task
on_properties f = do
  login ← self
  next ← lift (f login.info)
  modify (λ l. record l { info = next })

-- The account and the region of a serverless host.
unfoldable pub set_from_host : Task
set_from_host = do
  on_serverless ← serverless
  if on_serverless
      then (do on_properties set_account_id_from_host; on_properties set_region_from_host)
      else pure tt

unfoldable pub set_iam_properties : Outside → Task
unfolding set_from_host
set_iam_properties F = do
  set_auth_properties F
  on_serverless ← serverless
  iam ← attr (codes "iam")
  if on_serverless && is_true iam
      then raise (programming_error "This feature is not yet available")
      else pure tt
  set_from_host
  if is_flag true iam then (do need_cluster; set_iam_credentials F) else pure tt
  set_native_auth_plugin_properties F

-- The attributes that `connect` puts, each with the parameter that it takes.
unfoldable pub connect_parameters : List (Text × Text)
connect_parameters =
    (codes "access_key_id", codes "access_key_id")
    ∷ (codes "allow_db_user_override", codes "allow_db_user_override")
    ∷ (codes "app_id", codes "app_id")
    ∷ (codes "app_name", codes "app_name")
    ∷ (codes "application_name", codes "application_name")
    ∷ (codes "auth_profile", codes "auth_profile")
    ∷ (codes "auto_create", codes "auto_create")
    ∷ (codes "client_id", codes "client_id")
    ∷ (codes "client_protocol_version", codes "client_protocol_version")
    ∷ (codes "client_secret", codes "client_secret")
    ∷ (codes "cluster_identifier", codes "cluster_identifier")
    ∷ (codes "credentials_provider", codes "credentials_provider")
    ∷ (codes "database_metadata_current_db_only", codes "database_metadata_current_db_only")
    ∷ (codes "db_groups", codes "db_groups")
    ∷ (codes "db_name", codes "database")
    ∷ (codes "db_user", codes "db_user")
    ∷ (codes "endpoint_url", codes "endpoint_url")
    ∷ (codes "force_lowercase", codes "force_lowercase")
    ∷ (codes "host", codes "host")
    ∷ (codes "iam", codes "iam")
    ∷ (codes "iam_disable_cache", codes "iam_disable_cache")
    ∷ (codes "idp_host", codes "idp_host")
    ∷ (codes "idp_response_timeout", codes "idp_response_timeout")
    ∷ (codes "idp_tenant", codes "idp_tenant")
    ∷ (codes "listen_port", codes "listen_port")
    ∷ (codes "login_url", codes "login_url")
    ∷ (codes "max_prepared_statements", codes "max_prepared_statements")
    ∷ (codes "numeric_to_float", codes "numeric_to_float")
    ∷ (codes "partner_sp_id", codes "partner_sp_id")
    ∷ (codes "password", codes "password")
    ∷ (codes "port", codes "port")
    ∷ (codes "preferred_role", codes "preferred_role")
    ∷ (codes "principal", codes "principal_arn")
    ∷ (codes "profile", codes "profile")
    ∷ (codes "provider_name", codes "provider_name")
    ∷ (codes "region", codes "region")
    ∷ (codes "replication", codes "replication")
    ∷ (codes "role_arn", codes "role_arn")
    ∷ (codes "role_session_name", codes "role_session_name")
    ∷ (codes "scope", codes "scope")
    ∷ (codes "secret_access_key", codes "secret_access_key")
    ∷ (codes "session_token", codes "session_token")
    ∷ (codes "source_address", codes "source_address")
    ∷ (codes "ssl", codes "ssl")
    ∷ (codes "ssl_insecure", codes "ssl_insecure")
    ∷ (codes "sslmode", codes "sslmode")
    ∷ (codes "tcp_keepalive", codes "tcp_keepalive")
    ∷ (codes "timeout", codes "timeout")
    ∷ (codes "unix_sock", codes "unix_sock")
    ∷ (codes "user_name", codes "user")
    ∷ (codes "web_identity_token", codes "web_identity_token")
    ∷ []

-- An argument that is not given is None; the default of numeric_to_float, False, is that of its
-- attribute.
unfoldable pub argument : Text → Info → Attr
unfolding dict_get
argument name arguments = elim (dict_get name arguments) [ none ↦ absent | some v ↦ v ]

unfoldable pub put_arguments : List (Text × Text) → Info → Info → Info
unfolding argument put
put_arguments [] arguments info = info
put_arguments ((key, name) ∷ rest) arguments info =
    put_arguments rest arguments (put key (argument name arguments) info)

-- value in ClientProtocolVersion.list(), where True and False are 1 and 0
unfoldable pub is_version : Attr → Bool
is_version (number (pos n)) = leb n 2
is_version (flag b) = true
is_version v = false

unfoldable pub check_arguments : Task
unfolding is_version
check_arguments = do
  ssl ← attr (codes "ssl")
  iam ← attr (codes "iam")
  ssl_insecure ← attr (codes "ssl_insecure")
  version ← attr (codes "client_protocol_version")
  if is_flag false ssl && is_flag true iam
      then raise (interface_error "SSL must be enabled when using IAM")
      else if is_flag false iam && is_flag false ssl_insecure
      then raise (interface_error "IAM must be enabled when using ssl_insecure")
      else if is_version version
      then pure tt
      else raise (interface_error "client_protocol_version")

-- Whether the token that was given is used, without any further check.
unfoldable pub is_native_auth : Attr → Attr → Bool
is_native_auth iam provider = is_true iam && is_text provider (codes "BasicJwtCredentialsProvider")

-- `connect`, with the state of the credentials cache; the properties that Connection is called with are
-- in the state.
unfoldable pub prepare_connection : Outside → Task
prepare_connection F = do
  check_arguments
  iam ← attr (codes "iam")
  provider ← attr (codes "credentials_provider")
  if is_native_auth iam provider then pure tt else set_iam_properties F

-- How Connection secures the socket: with a test of the server's certificate, also of its name, or not.
pub data Channel : Type 0 where
  plain : Channel
  tls : Bool → Channel

-- The server has agreed to TLS before; the mode decides whether the socket is wrapped.
unfoldable pub channel : Attr → Attr → Channel
channel ssl sslmode =
    if is_flag true ssl
    then if is_text sslmode (codes "verify-ca")
      then tls false
      else if is_text sslmode (codes "verify-full")
      then tls true
      else plain
    else plain
