-- ===== src/Iam/ClusterCredentials.antt =====
-- redshift_connector/iam_helper.py: `set_cluster_credentials`, with the
-- cache of temporary credentials that all logins of the process share.
use amazon_redshift_python_d.Prelude.{
  Bool, true, false, ◌||◌, Option, none, some, List, [], ◌∷◌, ◌++◌, if◌then◌else◌,
}
use amazon_redshift_python_d.Prelude.Action.{Action, pure, raise, lift, self, modify, ◌>>=◌, ◌>>◌}
use amazon_redshift_python_d.Prelude.Dict.{dict_get, dict_set}
use amazon_redshift_python_d.Prelude.Int.{ltb_ℤ}
use amazon_redshift_python_d.Prelude.Result.{Result, ok, err, key_error, attribute_error}
use amazon_redshift_python_d.Prelude.Text.{Text, codes}
use amazon_redshift_python_d.Iam.Properties.{Attr, text, is_absent, is_flag, is_text}
use amazon_redshift_python_d.Iam.Login.{
  Client, Cred, Holder, saml_holder, session_holder, token_holder, Keys, cluster_keys,
  serverless_keys, Login, Outside, Provider, Request, cluster_request, serverless_request, Task,
  attr, on_info, put_attr, serverless,
}
use amazon_redshift_python_d.Iam.CacheKey.{get_credentials_cache_key}

given : Text → Attr → List (Text × Attr)
given key value = if is_absent value then [] else (key, value) ∷ []

-- The client: of the session of AWS credentials, else made with the session's credentials.
pub client_of : Outside → Text → Attr → Attr → Result Holder → Result Client
unfolding given
client_of F service region endpoint (ok (session_holder client)) = client region
client_of F service region endpoint (ok (saml_holder metadata creds)) =
    F.client service
      (creds ++ (given (codes "region_name") region ++ given (codes "endpoint_url") endpoint))
client_of F service region endpoint (ok (token_holder token expiration)) = err attribute_error
client_of F service region endpoint (err e) = err e

-- A host or a port that is missing is asked for.
is_missing : Attr → Bool
is_missing v = is_absent v || is_text v []

unfoldable pub find_endpoint : Client → Task
unfolding is_missing
find_endpoint client = do
  host ← attr (codes "host")
  port ← attr (codes "port")
  if is_missing host || is_missing port
      then (do
        on_serverless ← serverless
        cluster ← attr (codes "cluster_identifier")
        (address, endpoint_port) ← lift (
            if on_serverless
            then client.describe_configuration
            else client.describe_clusters cluster)
        put_attr (codes "host") address
        put_attr (codes "port") endpoint_port)
      else pure tt

unfoldable pub request_of : Bool → Action Login Request
request_of true = do db_name ← attr (codes "db_name"); pure (serverless_request db_name)
request_of false = do
  db_user ← attr (codes "db_user")
  db_name ← attr (codes "db_name")
  db_groups ← attr (codes "db_groups")
  cluster ← attr (codes "cluster_identifier")
  auto_create ← attr (codes "auto_create")
  pure (cluster_request db_user db_name db_groups cluster auto_create)

-- New credentials are asked for.
unfoldable pub ask : Client → Request → Action Login Cred
ask client request = do
  modify (λ l. record l { requests = l.requests ++ (request ∷ []) })
  lift (client.credentials request)

unfoldable pub store_cred : Text → Cred → Task
unfolding dict_set
store_cred key cred =
    modify (λ l. record l { credentials_cache = dict_set key cred l.credentials_cache })

-- The answer for serverless has its expiration under another key.
unfoldable pub remap : Bool → Cred → Result Cred
remap false cred = ok cred
remap true cred = elim cred.key_names [ cluster_keys ↦ err key_error | serverless_keys ↦ ok cred ]

unfoldable pub request_cred : Client → Action Login Cred
unfolding request_of ask remap
request_cred client = do
  on_serverless ← serverless
  request ← request_of on_serverless
  cred ← ask client request
  lift (remap on_serverless cred)

unfoldable pub cached_or_new : Outside → Client → Text → Option Cred → Action Login Cred
unfolding request_cred store_cred
cached_or_new F client key none = do cred ← request_cred client; store_cred key cred; pure cred
cached_or_new F client key (some cred) =
    if ltb_ℤ cred.expiration F.now
    then (do fresh ← request_cred client; store_cred key fresh; pure fresh)
    else pure cred

-- The cache is used if iam_disable_cache is False.
unfoldable pub find_cred : Outside → Provider → Client → Action Login Cred
unfolding cached_or_new get_credentials_cache_key request_cred
find_cred F provider client = do
  disabled ← attr (codes "iam_disable_cache")
  if is_flag false disabled
      then (do
        key ← on_info (get_credentials_cache_key F.repr provider)
        login ← self
        cached_or_new F client key (dict_get key login.credentials_cache))
      else request_cred client

pub same_keys : Bool → Keys → Bool
same_keys true serverless_keys = true
same_keys false cluster_keys = true
same_keys on_serverless key_names = false

-- cred["DbUser"] and cred["DbPassword"], in lower case for serverless.
unfoldable pub put_cred : Cred → Task
unfolding same_keys
put_cred cred = do
  on_serverless ← serverless
  if same_keys on_serverless cred.key_names then pure tt else raise key_error
  put_attr (codes "user_name") (text cred.user)
  put_attr (codes "password") (text cred.password)

unfoldable pub set_cluster_credentials : Outside → Provider → Task
unfolding client_of find_endpoint find_cred put_cred
set_cluster_credentials F provider = do
  on_serverless ← serverless
  region ← attr (codes "region")
  endpoint ← attr (codes "endpoint_url")
  client ← lift (
      client_of F (codes (if on_serverless then "redshift-serverless" else "redshift")) region
        endpoint (provider.get_credentials 1))
  find_endpoint client
  cred ← find_cred F provider client
  put_cred cred
