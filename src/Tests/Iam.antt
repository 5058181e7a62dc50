-- ===== src/Tests/Iam.antt =====
-- Tests of `connect`'s arguments and of the credentials that it gets.
use amazon_redshift_python_d.Prelude.{◌≡◌, refl, Bool, true, false, [], ◌∷◌, ◌⊎◌, inl}
use amazon_redshift_python_d.Prelude.Dict.{dict_get}
use amazon_redshift_python_d.Prelude.Int.{pos}
use amazon_redshift_python_d.Prelude.Result.{ok, err, module_not_found_error, client_error}
use amazon_redshift_python_d.Prelude.Text.{Text, codes, text_eq}
use amazon_redshift_python_d.Iam.AuthProperties.{set_auth_properties}
use amazon_redshift_python_d.Iam.Channel.{prepare_connection-channel}
use amazon_redshift_python_d.Iam.CacheKey.{get_credentials_cache_key}
use amazon_redshift_python_d.Iam.ClusterCredentials.{find_cred, set_cluster_credentials}
use amazon_redshift_python_d.Iam.Connect.{
  argument, channel, check_arguments, is_version, connect_parameters, prepare_connection,
  put_arguments, set_from_host, set_iam_properties, tls,
}
use amazon_redshift_python_d.Iam.Fresh.{set_cluster_credentials-fresh}
use amazon_redshift_python_d.Iam.Obtained.{Asked, Cached}
use amazon_redshift_python_d.Iam.Merge.{IsDict, or_else, put_all-merges}
use amazon_redshift_python_d.Iam.Reuse.{find_cred-reuse}
use amazon_redshift_python_d.Iam.SameKey.{get_credentials_cache_key-again}
use amazon_redshift_python_d.Iam.Login.{
  Client, Cred, cluster_keys, Login, Outside, Provider, attr, put_attr, serverless,
}
use amazon_redshift_python_d.Iam.Plugins.{aws_provider, set_native_auth_plugin_properties}
use amazon_redshift_python_d.Iam.Properties.{
  put_all, Attr, Info, absent, default_info, flag, get, is_serverless_host, number, put, text,
  texts,
}

abbrev cred : Cred
cred = record {
  key_names = cluster_keys;
  user = codes "IAM:ann";
  password = codes "secret";
  expiration = pos 900;
}

abbrev client : Client
client = record {
  describe_configuration = err client_error;
  describe_clusters = λ cluster. ok (text (codes "c1.example"), number (pos 5439));
  credentials = λ request. ok cred;
}

abbrev outside : Outside
outside = record {
  load = λ name info. err module_not_found_error;
  boto3_old = ok false;
  botocore = ok tt;
  describe_profiles = λ creds name. err client_error;
  session = λ args. ok (λ region. ok client);
  client = λ service args. ok client;
  now = pos 100;
  hash = λ v. codes "h";
  repr = λ ts. codes "[]";
  lower = λ t. t;
}

abbrev login_of : Info → Login
login_of arguments = record {
  info = put_arguments connect_parameters arguments default_info;
  credentials_cache = [];
  requests = [];
}

-- A user with a password, who asks for a mode that is not supported.
abbrev plain_login : Login
plain_login = login_of (
    (codes "host", text (codes "c1.example"))
    ∷ (codes "user", text (codes "ann"))
    ∷ (codes "password", text (codes "pw"))
    ∷ (codes "sslmode", text (codes "disable"))
    ∷ [])

prepare_connection-channel_example :
    (named : Bool) × (channel (flag true) (text (codes "verify-ca")) ≡ tls named)
unfolding prepare_connection put_arguments get connect_parameters default_info
    amazon_redshift_python_d.Iam.Connect.is_native_auth
    amazon_redshift_python_d.Iam.Properties.is_true check_arguments attr set_iam_properties
    set_auth_properties put_attr serverless amazon_redshift_python_d.Iam.Serverless.is_suffix
    set_native_auth_plugin_properties
prepare_connection-channel_example =
    prepare_connection-channel outside plain_login (prepare_connection outside plain_login).1
      (flag false) absent (flag true) (text (codes "verify-ca")) refl refl refl refl refl refl refl
      refl

abbrev aws_login : Login
aws_login = login_of (
    (codes "iam", flag true)
    ∷ (codes "cluster_identifier", text (codes "c1"))
    ∷ (codes "db_user", text (codes "ann"))
    ∷ (codes "db_groups", texts (codes "b" ∷ codes "a" ∷ []))
    ∷ (codes "access_key_id", text (codes "k"))
    ∷ (codes "secret_access_key", text (codes "s"))
    ∷ [])

abbrev keys_provider : Provider
keys_provider = aws_provider outside absent (text (codes "k")) (text (codes "s")) absent

set_cluster_credentials-fresh_example :
    (c : Cred) × ((Cached outside aws_login c
          (set_cluster_credentials outside keys_provider aws_login).1
        ⊎ Asked client aws_login c (set_cluster_credentials outside keys_provider aws_login).1)
      × ((get (codes "user_name") (set_cluster_credentials outside keys_provider aws_login).1.info
            ≡ ok (text c.user))
          × (get (codes "password") (set_cluster_credentials outside keys_provider aws_login).1.info
              ≡ ok (text c.password))))
unfolding amazon_redshift_python_d.Iam.Plugins.aws_provider
    amazon_redshift_python_d.Iam.ClusterCredentials.set_cluster_credentials
    amazon_redshift_python_d.Iam.Connect.put_arguments amazon_redshift_python_d.Iam.Properties.get
    amazon_redshift_python_d.Iam.Connect.connect_parameters
    amazon_redshift_python_d.Iam.Properties.default_info
    amazon_redshift_python_d.Iam.Serverless.is_suffix
    amazon_redshift_python_d.Iam.Properties.is_serverless_host
    amazon_redshift_python_d.Iam.ClusterCredentials.find_endpoint
    amazon_redshift_python_d.Iam.ClusterCredentials.find_cred
    amazon_redshift_python_d.Iam.ClusterCredentials.put_cred
    amazon_redshift_python_d.Iam.Plugins.session_args amazon_redshift_python_d.Iam.Login.attr
    amazon_redshift_python_d.Iam.Login.info_attr amazon_redshift_python_d.Iam.Login.info_put
    amazon_redshift_python_d.Iam.Login.info_serverless
    amazon_redshift_python_d.Iam.Properties.is_true amazon_redshift_python_d.Iam.Login.put_attr
    amazon_redshift_python_d.Iam.Login.serverless
set_cluster_credentials-fresh_example =
    set_cluster_credentials-fresh outside keys_provider client aws_login
      (set_cluster_credentials outside keys_provider aws_login).1 false absent absent refl refl refl
      refl refl

get_credentials_cache_key-again_example :
    (dict_get (codes "host") (get_credentials_cache_key outside.repr keys_provider aws_login.info).1
      ≡ dict_get (codes "host") aws_login.info)
    × (get_credentials_cache_key outside.repr keys_provider
          (get_credentials_cache_key outside.repr keys_provider aws_login.info).1
        ≡ (
          ok (codes "h;ann;a,b;c1;False;900;k;s"),
          (get_credentials_cache_key outside.repr keys_provider aws_login.info).1,
        ))
unfolding amazon_redshift_python_d.Iam.CacheKey.get_credentials_cache_key
    amazon_redshift_python_d.Iam.Plugins.aws_provider
    amazon_redshift_python_d.Iam.Plugins.session_args
    amazon_redshift_python_d.Iam.Connect.put_arguments amazon_redshift_python_d.Iam.Properties.get
    amazon_redshift_python_d.Iam.Connect.connect_parameters
    amazon_redshift_python_d.Iam.Properties.default_info
    amazon_redshift_python_d.Iam.Serverless.is_suffix
    amazon_redshift_python_d.Iam.Properties.is_serverless_host
    amazon_redshift_python_d.Iam.CacheKey.key_of amazon_redshift_python_d.Iam.CacheKey.sort_groups
    amazon_redshift_python_d.Iam.CacheKey.attr_or amazon_redshift_python_d.Iam.Login.info_attr
    amazon_redshift_python_d.Iam.Login.info_put amazon_redshift_python_d.Iam.Login.info_serverless
    amazon_redshift_python_d.Iam.Login.attr
    amazon_redshift_python_d.Iam.ClusterCredentials.find_cred
    amazon_redshift_python_d.Iam.Obtained.is_fresh amazon_redshift_python_d.Iam.Properties.is_true
    amazon_redshift_python_d.Iam.Login.serverless amazon_redshift_python_d.Prelude.Text.str_int
get_credentials_cache_key-again_example =
    get_credentials_cache_key-again outside.repr keys_provider aws_login.info
      (get_credentials_cache_key outside.repr keys_provider aws_login.info).1
      (codes "h;ann;a,b;c1;False;900;k;s") (codes "host") refl refl

abbrev after_aws_login : Login
after_aws_login = (find_cred outside keys_provider client aws_login).1

find_cred-reuse_example :
    find_cred
      (record outside { now = pos 800 })
      keys_provider
      client
      (record after_aws_login { info = aws_login.info })
    ≡ (ok cred, after_aws_login)
unfolding amazon_redshift_python_d.Iam.CacheKey.get_credentials_cache_key
    amazon_redshift_python_d.Iam.Plugins.aws_provider
    amazon_redshift_python_d.Iam.Plugins.session_args
    amazon_redshift_python_d.Iam.Connect.put_arguments amazon_redshift_python_d.Iam.Properties.get
    amazon_redshift_python_d.Iam.Connect.connect_parameters
    amazon_redshift_python_d.Iam.Properties.default_info
    amazon_redshift_python_d.Iam.Serverless.is_suffix
    amazon_redshift_python_d.Iam.Properties.is_serverless_host
    amazon_redshift_python_d.Iam.CacheKey.key_of amazon_redshift_python_d.Iam.CacheKey.sort_groups
    amazon_redshift_python_d.Iam.CacheKey.attr_or amazon_redshift_python_d.Iam.Login.info_attr
    amazon_redshift_python_d.Iam.Login.info_put amazon_redshift_python_d.Iam.Login.info_serverless
    amazon_redshift_python_d.Iam.ClusterCredentials.find_cred
    amazon_redshift_python_d.Iam.Login.attr amazon_redshift_python_d.Iam.Obtained.is_fresh
    amazon_redshift_python_d.Iam.Properties.is_true amazon_redshift_python_d.Iam.Login.serverless
find_cred-reuse_example =
    find_cred-reuse outside keys_provider client client (pos 800) aws_login after_aws_login
      (record after_aws_login { info = aws_login.info }) cred refl refl refl refl (inl refl)

abbrev profile : Info
profile = (codes "host", text (codes "c2.example")) ∷ (codes "db_user", absent) ∷ []

put_all-merges_example :
    (merged : Info) × ((put_all aws_login.info profile ≡ ok merged)
      × ((key : Text)
          → dict_get key merged ≡ or_else (dict_get key profile) (dict_get key aws_login.info)))
unfolding IsDict dict_get text_eq
put_all-merges_example = put_all-merges aws_login.info profile (refl, (refl, tt)) refl
