-- ===== src/Iam/Plugins.antt =====
-- The providers of credentials: redshift_connector/iam_helper.py, `set_iam_credentials`, but for the
-- call of set_cluster_credentials; redshift_connector/native_plugin_helper.py; and
-- redshift_connector/auth/aws_credentials_provider.py.
use amazon_redshift_python_d.Prelude.{
  ℕ, Bool, true, false, not, ◌&&◌, Option, none, some, List, [], ◌∷◌, ◌++◌, map, ◌==◌,
  if◌then◌else◌, length,
}
use amazon_redshift_python_d.Prelude.Action.{
  Action, pure, raise, lift, self, except_do, ◌>>=◌, ◌>>◌,
}
use amazon_redshift_python_d.Prelude.Int.{ltb_ℤ}
use amazon_redshift_python_d.Prelude.Result.{
  Exception, Result, ok, err, interface_error, type_error, attribute_error, module_not_found_error,
}
use amazon_redshift_python_d.Prelude.Text.{Text, codes}
use amazon_redshift_python_d.Iam.Properties.{Attr, text, texts, flag, is_absent, is_true}
use amazon_redshift_python_d.Iam.Login.{
  Client, Holder, saml_holder, session_holder, token_holder, IamMetadata, Login, Outside, Provider,
  Task, attr, put_attr,
}

is_import_error : Exception → Bool
is_import_error attribute_error = true
is_import_error module_not_found_error = true
is_import_error e = false

-- The name of a plugin of this package.
abbrev predefined : Text → Text
predefined name = codes "redshift_connector.plugin." ++ name

-- The class by its name, else the one of this package; `found` runs for the second.
unfoldable pub load_named : Outside → (Text → Task) → Text → Action Login Provider
unfolding is_import_error
load_named F found name =
    except_do (do login ← self; lift (F.load name login.info))
      (λ e.
        if is_import_error e
        then except_do
            (do
              login ← self
              provider ← lift (F.load (predefined name) login.info)
              found (predefined name)
              pure provider)
            (λ e2.
              if is_import_error e2
              then raise (interface_error "Invalid credentials provider")
              else raise e2)
        else raise e)

-- A name that is no str has no method split; the message of the last exception cannot be made of it.
unfoldable pub load_provider : Outside → (Text → Task) → Attr → Action Login Provider
unfolding load_named
load_provider F found (text name) = load_named F found name
load_provider F found name = raise type_error

-- AWSCredentialsProvider.refresh: the arguments of boto3.Session.
unfoldable pub session_args : Attr → Attr → Attr → Attr → List (Text × Attr)
session_args profile key secret token =
    if not (is_absent profile)
    then (codes "profile_name", profile) ∷ []
    else if not (is_absent key)
    then (codes "aws_access_key_id", key)
      ∷ (codes "aws_secret_access_key", secret)
      ∷ (if is_absent token then [] else (codes "aws_session_token", token) ∷ [])
    else []

-- A failure of refresh becomes InterfaceError.
session_of : Result (Attr → Result Client) → Result Holder
session_of (ok session) = ok (session_holder session)
session_of (err e) = err (interface_error "Refreshing IdP credentials failed")

-- AWSCredentialsProvider, whose cache is empty when it is made, with its parameters.
unfoldable pub aws_provider : Outside → Attr → Attr → Attr → Attr → Provider
unfolding session_of session_args
aws_provider F profile key secret token = record {
  is_saml = false;
  is_native_plugin = false;
  cache_key = F.hash (if is_true profile then profile else key);
  get_credentials = λ n. session_of (F.session (session_args profile key secret token));
  get_idp_token = err attribute_error;
}

unfoldable pub new_aws_provider : Outside → Action Login Provider
unfolding aws_provider
new_aws_provider F = do
  profile ← attr (codes "profile")
  key ← attr (codes "access_key_id")
  secret ← attr (codes "secret_access_key")
  token ← attr (codes "session_token")
  pure (aws_provider F profile key secret token)

unfoldable pub put_text : Text → Option Text → Task
put_text key none = pure tt
put_text key (some t) = put_attr key (text t)

-- The first that is not None.
unfoldable pub first_of : Option Text → Option Text → Option Text → Option Text
first_of (some t) u v = some t
first_of none (some t) v = some t
first_of none none v = v

-- The user of the database: the assertion's first, if it may override.
unfoldable pub db_user_of : IamMetadata → Option Text
unfolding first_of
db_user_of m =
    if m.allow_db_user_override
    then first_of m.saml_db_user m.db_user m.profile_db_user
    else first_of m.db_user m.profile_db_user m.saml_db_user

-- len(info.db_groups)
unfoldable pub groups_len : Attr → Result ℕ
groups_len (texts groups) = ok (length groups)
groups_len (text group) = ok (length group)
groups_len v = err type_error

-- What the SAML assertion says of the user.
unfoldable pub put_metadata : Outside → Option IamMetadata → Task
unfolding put_text db_user_of groups_len
put_metadata F none = pure tt
put_metadata F (some m) = do
  if m.auto_create then put_attr (codes "auto_create") (flag true) else pure tt
  if m.force_lowercase then put_attr (codes "force_lowercase") (flag true) else pure tt
  put_text (codes "db_user") (db_user_of m)
  groups ← attr (codes "db_groups")
  n ← lift (groups_len groups)
  if n == 0 && not (length m.db_groups == 0)
      then put_attr (codes "db_groups")
          (texts (if m.force_lowercase then map F.lower m.db_groups else m.db_groups))
      else pure tt

unfoldable pub metadata_of : Holder → Result (Option IamMetadata)
metadata_of (saml_holder metadata creds) = ok metadata
metadata_of holder = err attribute_error

-- The provider of set_iam_credentials, behind the metadata of its first credentials.
unfoldable pub choose_provider : Outside → Action Login Provider
unfolding load_provider new_aws_provider
choose_provider F = do
  name ← attr (codes "credentials_provider")
  if is_absent name
      then new_aws_provider F
      else load_provider F (λ found. put_attr (codes "credentials_provider") (text found)) name

unfoldable pub use_metadata : Outside → Provider → Task
unfolding put_metadata metadata_of
use_metadata F provider =
    if provider.is_saml
    then (do
      holder ← lift (provider.get_credentials 0)
      metadata ← lift (metadata_of holder)
      put_metadata F metadata)
    else pure tt

-- A token that has expired is replaced by the identity provider's.
unfoldable pub current_token : Outside → Provider → Holder → Action Login Text
current_token F provider (token_holder token none) = pure token
current_token F provider (token_holder token (some expiration)) =
    if ltb_ℤ expiration F.now
    then (do
      fresh ← lift provider.get_idp_token
      put_attr (codes "idp_token") (text fresh)
      pure fresh)
    else pure token
current_token F provider holder = raise attribute_error

-- get_native_auth_plugin_credentials; "" for a provider of another kind.
unfoldable pub native_credentials : Outside → Attr → Action Login Text
unfolding load_provider current_token
native_credentials F name = do
  provider ← load_provider F (λ found. pure tt) name
  if provider.is_native_plugin
      then (do holder ← lift (provider.get_credentials 0); current_token F provider holder)
      else pure []

unfoldable pub set_native_auth_plugin_properties : Outside → Task
unfolding native_credentials
set_native_auth_plugin_properties F = do
  name ← attr (codes "credentials_provider")
  if is_true name
      then (do
        token ← native_credentials F name
        if length token == 0 then pure tt else put_attr (codes "web_identity_token") (text token))
      else pure tt
