-- ===== src/Iam/Secured/Cluster.antt =====
-- The credentials of a cluster and the endpoint that is asked for leave the mode of TLS as it is.
use amazon_redshift_python_d.Prelude.{refl, Option, none, some, List, [], ◌∷◌}
use amazon_redshift_python_d.Prelude.Action.{Action}
use amazon_redshift_python_d.Prelude.Dict.{dict_get}
use amazon_redshift_python_d.Prelude.Keeps.{
  Keeps, Keeps_lem, each, keeping, if-Keeps, lift-Keeps, raise-Keeps, modify-Keeps, bind-Keeps,
  self-Keeps,
}
use amazon_redshift_python_d.Prelude.Text.{Text, codes, text_eq}
use amazon_redshift_python_d.Iam.CacheKey.{get_credentials_cache_key, sort_groups}
use amazon_redshift_python_d.Iam.ClusterCredentials.{
  ask, cached_or_new, find_cred, find_endpoint, put_cred, request_cred, set_cluster_credentials,
  store_cred,
}
use amazon_redshift_python_d.Iam.Connect.{set_iam_credentials}
use amazon_redshift_python_d.Iam.Login.{Client, Cred, Outside, Provider, Request, info_put, on_info}
use amazon_redshift_python_d.Iam.Properties.{Attr, Info, absent, text, texts, flag, number}
use amazon_redshift_python_d.Iam.Reads.{attr-Keeps, info_attr-Keeps, key_of-Keeps, reading}
use amazon_redshift_python_d.Iam.Secured.{IsSecured, Safe, put-IsSecured, put_attr-Keeps}
use amazon_redshift_python_d.Iam.Secured.Plugins.{choose_provider-Keeps, use_metadata-Keeps}

put_groups-Keeps :
    (groups : List Text) → Keeps IsSecured (info_put (codes "db_groups") (texts groups))
unfolding info_put text_eq
put_groups-Keeps groups =
    modify-Keeps (λ i h. put-IsSecured (codes "db_groups") (texts groups) i refl h)

sort_groups-Keeps : (groups : Attr) → Keeps IsSecured (sort_groups groups)
unfolding sort_groups
sort_groups-Keeps absent = raise-Keeps _
sort_groups-Keeps (flag b) = raise-Keeps _
sort_groups-Keeps (number z) = raise-Keeps _
sort_groups-Keeps (texts []) = lift-Keeps _
sort_groups-Keeps (texts (g ∷ gs)) = search (keeping, put_groups-Keeps) depth 10
sort_groups-Keeps (text []) = lift-Keeps _
sort_groups-Keeps (text (c ∷ cs)) = search (keeping, put_groups-Keeps) depth 10

get_credentials_cache_key-Keeps :
    (repr : List Text → Text) (provider : Provider)
    → Keeps IsSecured (get_credentials_cache_key repr provider)
unfolding get_credentials_cache_key
get_credentials_cache_key-Keeps repr provider =
    bind-Keeps (info_attr-Keeps (codes "db_groups"))
      (λ groups. bind-Keeps (sort_groups-Keeps groups) (key_of-Keeps repr provider))

on_info-Keeps : {A : Type 0} {m : Action Info A} → Keeps IsSecured m → Keeps Safe (on_info m)
on_info-Keeps keeps = each (λ l h. Keeps_lem keeps l.info h)

find_endpoint-Keeps : (client : Client) → Keeps Safe (find_endpoint client)
unfolding find_endpoint text_eq
find_endpoint-Keeps client =
    search
      (
        reading,
        λ (v : Attr). put_attr-Keeps (codes "host") v refl,
        λ (v : Attr). put_attr-Keeps (codes "port") v refl,
      )
      depth 20

ask-Keeps : (client : Client) (request : Request) → Keeps Safe (ask client request)
unfolding ask
ask-Keeps client request = each (λ l h. h)

store_cred-Keeps : (key : Text) (cred : Cred) → Keeps Safe (store_cred key cred)
unfolding store_cred
store_cred-Keeps key cred = modify-Keeps (λ l h. h)

request_cred-Keeps : (client : Client) → Keeps Safe (request_cred client)
unfolding request_cred
request_cred-Keeps client = search (reading, ask-Keeps) depth 10

cached_or_new-Keeps :
    (F : Outside) (client : Client) (key : Text) (cached : Option Cred)
    → Keeps Safe (cached_or_new F client key cached)
unfolding cached_or_new
cached_or_new-Keeps F client key none =
    search (keeping, request_cred-Keeps, store_cred-Keeps) depth 10
cached_or_new-Keeps F client key (some cred) =
    search (keeping, request_cred-Keeps, store_cred-Keeps) depth 10

find_cred-Keeps :
    (F : Outside) (provider : Provider) (client : Client) → Keeps Safe (find_cred F provider client)
unfolding find_cred
find_cred-Keeps F provider client = bind-Keeps (attr-Keeps (codes "iam_disable_cache")) (λ disabled.
    if-Keeps _
      (bind-Keeps (on_info-Keeps (get_credentials_cache_key-Keeps F.repr provider)) (λ key.
        bind-Keeps self-Keeps
          (λ login. cached_or_new-Keeps F client key (dict_get key login.credentials_cache))))
      (request_cred-Keeps client))

put_cred-Keeps : (cred : Cred) → Keeps Safe (put_cred cred)
unfolding put_cred text_eq
put_cred-Keeps cred =
    search
      (
        reading,
        λ (v : Attr). put_attr-Keeps (codes "user_name") v refl,
        λ (v : Attr). put_attr-Keeps (codes "password") v refl,
      )
      depth 20

set_cluster_credentials-Keeps :
    (F : Outside) (provider : Provider) → Keeps Safe (set_cluster_credentials F provider)
unfolding set_cluster_credentials
set_cluster_credentials-Keeps F provider =
    search (reading, find_endpoint-Keeps, find_cred-Keeps, put_cred-Keeps) depth 20

pub set_iam_credentials-Keeps : (F : Outside) → Keeps Safe (set_iam_credentials F)
unfolding set_iam_credentials
set_iam_credentials-Keeps F =
    search (keeping, choose_provider-Keeps, use_metadata-Keeps, set_cluster_credentials-Keeps) depth
      20
