-- ===== src/Iam/Login.antt =====
-- The state of a login, and what boto3, the plugins and the clock give.
use amazon_redshift_python_d.Prelude.{ℕ, Bool, Option, List}
use amazon_redshift_python_d.Prelude.Action.{Action, modify}
use amazon_redshift_python_d.Prelude.Int.{ℤ}
use amazon_redshift_python_d.Prelude.Result.{Result}
use amazon_redshift_python_d.Prelude.Text.{Text}
use amazon_redshift_python_d.Iam.Properties.{Attr, Info, get, put, is_serverless_host}

-- The keys of temporary credentials: DbUser and DbPassword, or dbUser and dbPassword.
pub data Keys : Type 0 where
  cluster_keys serverless_keys : Keys

-- Temporary credentials; the expiration is a time of the clock.
pub record Cred : Type 0 where
  pub key_names : Keys
  pub user : Text
  pub password : Text
  pub expiration : ℤ

-- The arguments of get_cluster_credentials, and of get_credentials.
pub data Request : Type 0 where
  cluster_request : (db_user db_name db_groups cluster_identifier auto_create : Attr) → Request
  serverless_request : (db_name : Attr) → Request

-- A boto3 client. An endpoint is an address and a port.
pub record Client : Type 0 where
  pub describe_configuration : Result (Attr × Attr)
  pub describe_clusters : Attr → Result (Attr × Attr)
  pub credentials : Request → Result Cred

-- CredentialsHolder.IamMetadata
pub record IamMetadata : Type 0 where
  pub auto_create : Bool
  pub db_user : Option Text
  pub saml_db_user : Option Text
  pub profile_db_user : Option Text
  pub db_groups : List Text
  pub allow_db_user_override : Bool
  pub force_lowercase : Bool

-- What get_credentials of a provider returns: the dictionary for boto3, or a session whose client is
-- made for a region.
pub data Holder : Type 0 where
  saml_holder : Option IamMetadata → List (Text × Attr) → Holder
  session_holder : (Attr → Result Client) → Holder
  -- a NativeTokenHolder, with its token and expiration
  token_holder : Text → Option ℤ → Holder

-- A provider with its parameters. Its n-th call of get_credentials is an argument: a plugin asks its
-- identity provider.
pub record Provider : Type 0 where
  pub is_saml : Bool
  pub is_native_plugin : Bool
  pub cache_key : Text
  pub get_credentials : ℕ → Result Holder
  pub get_idp_token : Result Text

pub record Outside : Type 0 where
  -- dynamic_plugin_import of a name, the class called, and add_parameter
  pub load : Text → Info → Result Provider
  -- whether boto3 is older than 1.17.111, or that it is not installed; and botocore
  pub boto3_old : Result Bool
  pub botocore : Result (Unit {0})
  -- describe_authentication_profiles: the contents of the profiles, as json.loads reads them
  pub describe_profiles : List (Text × Attr) → Attr → Result (List (Result Info))
  -- boto3.Session
  pub session : List (Text × Attr) → Result (Attr → Result Client)
  -- boto3.client of a service
  pub client : Text → List (Text × Attr) → Result Client
  pub now : ℤ
  -- str(hash(value)), str(value) of a list, and str.lower
  pub hash : Attr → Text
  pub repr : List Text → Text
  pub lower : Text → Text

-- The properties, IamHelper.credentials_cache and the requests for temporary credentials so far.
pub record Login : Type 0 where
  pub info : Info
  pub credentials_cache : List (Text × Cred)
  pub requests : List Request

abbrev pub Task : Type 0
Task = Action Login (Unit {0})

-- info.key, info.put(key, value) and info.is_serverless_host, on the properties alone
unfoldable pub info_attr : Text → Action Info Attr
unfolding get
info_attr key info = (get key info, info)

unfoldable pub info_put : Text → Attr → Action Info (Unit {0})
unfolding put
info_put key value = modify (put key value)

unfoldable pub info_serverless : Action Info Bool
unfolding is_serverless_host
info_serverless info = (is_serverless_host info, info)

-- What is done to the properties, in a login.
abbrev pub on_info : {A : Type 0} → Action Info A → Action Login A
on_info m login = let (r, info) = m login.info in (r, record login { info = info })

unfoldable pub attr : Text → Action Login Attr
unfolding get
attr key login = (get key login.info, login)

unfoldable pub put_attr : Text → Attr → Task
unfolding put
put_attr key value = modify (λ l. record l { info = put key value l.info })

unfoldable pub serverless : Action Login Bool
unfolding is_serverless_host
serverless login = (is_serverless_host login.info, login)
