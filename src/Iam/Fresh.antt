-- ===== src/Iam/Fresh.antt =====
-- Where the temporary credentials of a login come from: redshift_connector/iam_helper.py,
-- `set_cluster_credentials`.
use mathlib.Core.Path.{subst}
use amazon_redshift_python_d.Prelude.{◌≡◌, refl, sym, ◌∙◌, Bool, ◌⊎◌, if◌then◌else◌}
use amazon_redshift_python_d.Prelude.Action.{◌>>=◌, ◌>>◌}
use amazon_redshift_python_d.Prelude.Dict.{dict_set, dict_get-dict_set-eq, dict_get-dict_set-ne}
use amazon_redshift_python_d.Prelude.Keeps.{
  if-Keeps, lift-Keeps, raise-Keeps, Ends, Leads, Leads_lem, leads, bind-Leads, Keeps-Leads,
}
use amazon_redshift_python_d.Prelude.Result.{ok}
use amazon_redshift_python_d.Prelude.Text.{Text, codes, text_eq}
use amazon_redshift_python_d.Iam.ClusterCredentials.{
  find_cred, find_endpoint, put_cred, client_of, same_keys, set_cluster_credentials,
}
use amazon_redshift_python_d.Iam.Login.{
  Client, Cred, Login, Outside, Provider, attr, put_attr, serverless,
}
use amazon_redshift_python_d.Iam.Properties.{Attr, Info, text, get, is_serverless_host, put}
use amazon_redshift_python_d.Iam.Reads.{serverless-Keeps}
use amazon_redshift_python_d.Iam.Obtained.{
  Asked, Before, Cached, Got, find_cred-Leads, find_endpoint-Keeps,
}

put-names :
    (user password : Text) (info : Info)
    → (get
          (codes "user_name")
          (put (codes "password") (text password) (put (codes "user_name") (text user) info))
        ≡ ok (text user))
      × (get
            (codes "password")
            (put (codes "password") (text password) (put (codes "user_name") (text user) info))
          ≡ ok (text password))
unfolding get put text_eq
put-names user password info = (
  rw
      (
        get,
        dict_get-dict_set-ne (codes "user_name") (codes "password") (text password)
            (dict_set (codes "user_name") (text user) info) refl,
        dict_get-dict_set-eq (codes "user_name") (text user) info,
      )
      refl,
  rw
      (
        get,
        dict_get-dict_set-eq (codes "password") (text password)
            (dict_set (codes "user_name") (text user) info),
      )
      refl,
)

module _ (F : Outside) (client : Client) (login : Login) where
  -- The user and the password of credentials are put last.
  Used : Login → Type 0
  Used l =
      (cred : Cred) × (Got F client login cred l
        × ((get (codes "user_name") l.info ≡ ok (text cred.user))
            × (get (codes "password") l.info ≡ ok (text cred.password))))

  put_cred-Leads :
      (cred : Cred)
      → Leads (Got F client login cred) (λ (t : Unit {0}). Used) (λ l. Unit {0}) (put_cred cred)
  unfolding put_cred put_attr Used Got Cached Asked
  put_cred-Leads cred = bind-Leads (Keeps-Leads serverless-Keeps (λ l h. tt)) (λ on_serverless.
      bind-Leads
        (Keeps-Leads
          (if-Keeps (same_keys on_serverless cred.key_names) (lift-Keeps (ok tt)) (raise-Keeps _))
          (λ l h. tt))
        named)
    where
      named :
          (t : Unit {0})
          → Leads
              (Got F client login cred)
              (λ (t : Unit {0}). Used)
              (λ l. Unit {0})
              (do
                put_attr (codes "user_name") (text cred.user)
                put_attr (codes "password") (text cred.password))
      named t = leads (λ l got. (cred, (got, put-names cred.user cred.password l.info)))

  rest-Leads :
      (provider : Provider)
      → Leads
          (Before login)
          (λ (t : Unit {0}). Used)
          (λ l. Unit {0})
          (do find_endpoint client; cred ← find_cred F provider client; put_cred cred)
  rest-Leads provider =
      bind-Leads (Keeps-Leads (find_endpoint-Keeps F client login) (λ l h. tt))
        (λ t. bind-Leads (find_cred-Leads F client login provider) put_cred-Leads)

-- When set_cluster_credentials returns, with the client that the provider's credentials give, the
-- user and the password that it leaves in the properties are those of one and the same credentials.
-- Either these are in the cache and have not expired, and no request has been made; or exactly one
-- request has been made, and they are its answer.
pub set_cluster_credentials-fresh :
    (F : Outside) (provider : Provider) (client : Client) (login after : Login)
    (on_serverless : Bool) (region endpoint : Attr)
    → is_serverless_host login.info ≡ ok on_serverless
    → get (codes "region") login.info ≡ ok region
    → get (codes "endpoint_url") login.info ≡ ok endpoint
    → client_of F
        (codes (if on_serverless then "redshift-serverless" else "redshift"))
        region
        endpoint
        (provider.get_credentials 1)
      ≡ ok client
    → set_cluster_credentials F provider login ≡ (ok tt, after)
    → (cred : Cred) × ((Cached F login cred after ⊎ Asked client login cred after)
        × ((get (codes "user_name") after.info ≡ ok (text cred.user))
            × (get (codes "password") after.info ≡ ok (text cred.password))))
unfolding set_cluster_credentials attr serverless Used Got Before
set_cluster_credentials-fresh F provider client login after on_serverless region endpoint host r e
      made done =
    subst (λ x. Ends (λ (t : Unit {0}). Used F client login) (λ l. Unit {0}) x.0 x.1)
      (sym (rw (host, r, e, made) refl) ∙ done)
      (Leads_lem (rest-Leads F client login provider) login (refl, refl))
