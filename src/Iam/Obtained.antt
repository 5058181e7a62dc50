-- ===== src/Iam/Obtained.antt =====
-- Credentials from the cache or from one request: redshift_connector/iam_helper.py, the middle of
-- `set_cluster_credentials`.
use amazon_redshift_python_d.Prelude.{
  ◌≡◌, refl, sym, Bool, true, false, not, Option, none, some, [], ◌∷◌, ◌++◌, ◌⊎◌, inl, inr,
  if◌then◌else◌, ap,
}
use amazon_redshift_python_d.Prelude.Action.{Action, lift, pure, self, ◌>>=◌, ◌>>◌}
use amazon_redshift_python_d.Prelude.Dict.{dict_get}
use amazon_redshift_python_d.Prelude.Int.{ℤ, ltb_ℤ}
use amazon_redshift_python_d.Prelude.Keeps.{
  Keeps, each, modify-Keeps, Ends, Leads, Leads_lem, leads, bind-Leads, Keeps-Leads,
}
use amazon_redshift_python_d.Prelude.Result.{Result, ok, err, key_error}
use amazon_redshift_python_d.Prelude.Text.{Text, codes}
use amazon_redshift_python_d.Iam.CacheKey.{get_credentials_cache_key}
use amazon_redshift_python_d.Iam.ClusterCredentials.{
  ask, cached_or_new, find_cred, find_endpoint, request_cred, remap, store_cred,
}
use amazon_redshift_python_d.Iam.Login.{
  Client, Cred, Keys, cluster_keys, serverless_keys, Login, Outside, Provider, Request, on_info,
  put_attr,
}
use amazon_redshift_python_d.Iam.Properties.{Attr, Info, is_flag}
use amazon_redshift_python_d.Iam.Reads.{attr-Keeps, reading, request_of-Keeps, serverless-Keeps}

-- Credentials that do not expire before `now`.
unfoldable pub is_fresh : ℤ → Cred → Bool
is_fresh now cred = not (ltb_ℤ cred.expiration now)

-- Nothing has been asked for and the cache is the login's.
unfoldable pub Before : Login → Login → Type 0
Before login l = (l.credentials_cache ≡ login.credentials_cache) × (l.requests ≡ login.requests)

-- Credentials of the cache that have not expired.
unfoldable pub Cached : Outside → Login → Cred → Login → Type 0
Cached F login cred l =
    (l.requests ≡ login.requests)
    × ((is_fresh F.now cred ≡ true)
        × ((key : Text) × (dict_get key login.credentials_cache ≡ some cred)))

-- The answer to the one request that was made.
unfoldable pub Asked : Client → Login → Cred → Login → Type 0
Asked client login cred l =
    (request : Request) × ((l.requests ≡ login.requests ++ (request ∷ []))
      × (client.credentials request ≡ ok cred))

module _ (F : Outside) (client : Client) (login : Login) where
  unfoldable pub Got : Cred → Login → Type 0
  Got cred l = Cached F login cred l ⊎ Asked client login cred l

  ask-Leads :
      (request : Request)
      → Leads (Before login) (Asked client login) (λ l. Unit {0}) (ask client request)
  unfolding ask Before Asked
  ask-Leads request = leads (λ l b. answered l b (client.credentials request) refl)
    where
      answered :
          (l : Login)
          → Before login l
          → (r : Result Cred) → client.credentials request ≡ r
          → Ends
              (Asked client login)
              (λ l. Unit {0})
              r
              (record l { requests = l.requests ++ (request ∷ []) })
      answered l b (err e) same = tt
      answered l b (ok cred) same = (request, (ap (λ rs. rs ++ (request ∷ [])) b.1, same))

  remap-Leads :
      (on_serverless : Bool) (cred : Cred)
      → Leads
          (Asked client login cred)
          (Asked client login)
          (λ l. Unit {0})
          (lift (remap on_serverless cred))
  unfolding remap
  remap-Leads false cred = leads (λ l a. a)
  remap-Leads true cred = leads (λ l a. asked cred.key_names l a)
    where
      asked :
          (key_names : Keys) (l : Login)
          → Asked client login cred l
          → Ends
              (Asked client login)
              (λ l. Unit {0})
              (elim key_names [ cluster_keys ↦ err key_error | serverless_keys ↦ ok cred ])
              l
      asked cluster_keys l a = tt
      asked serverless_keys l a = a

  request_cred-Leads :
      Leads (Before login) (Asked client login) (λ l. Unit {0}) (request_cred client)
  unfolding request_cred
  request_cred-Leads = bind-Leads (Keeps-Leads serverless-Keeps (λ l h. tt)) (λ on_serverless.
      bind-Leads (Keeps-Leads (request_of-Keeps on_serverless) (λ l h. tt))
        (λ request. bind-Leads (ask-Leads request) (remap-Leads on_serverless)))

  stored-Leads :
      (key : Text)
      → Leads
          (Before login)
          Got
          (λ l. Unit {0})
          (do cred ← request_cred client; store_cred key cred; pure cred)
  unfolding store_cred Got Asked
  stored-Leads key = bind-Leads request_cred-Leads (λ cred. leads (λ l a. inr a))

  cached_or_new-Leads :
      (key : Text) (cached : Option Cred)
      → dict_get key login.credentials_cache ≡ cached
      → Leads (Before login) Got (λ l. Unit {0}) (cached_or_new F client key cached)
  unfolding cached_or_new Before Got Cached is_fresh
  cached_or_new-Leads key none e = stored-Leads key
  cached_or_new-Leads key (some cred) e = used (ltb_ℤ cred.expiration F.now) refl
    where
      used :
          (b : Bool)
          → ltb_ℤ cred.expiration F.now ≡ b
          → Leads
              (Before login)
              Got
              (λ l. Unit {0})
              (if b
                then (do fresh ← request_cred client; store_cred key fresh; pure fresh)
                else pure cred)
      used true late = stored-Leads key
      used false late = leads (λ l b. inl (b.1, (rw late refl, (key, e))))

  on_info-Keeps : {A : Type 0} (m : Action Info A) → Keeps (Before login) (on_info m)
  unfolding Before
  on_info-Keeps m = each (λ l h. h)

  Asked-Got :
      (r : Result Cred) (l : Login)
      → Ends (Asked client login) (λ l. Unit {0}) r l
      → Ends Got (λ l. Unit {0}) r l
  unfolding Got
  Asked-Got (ok cred) l a = inr a
  Asked-Got (err e) l a = tt

  pub find_cred-Leads :
      (provider : Provider) → Leads (Before login) Got (λ l. Unit {0}) (find_cred F provider client)
  unfolding find_cred Before
  find_cred-Leads provider =
      bind-Leads (Keeps-Leads (attr-Keeps (codes "iam_disable_cache")) (λ l h. tt))
        (λ disabled. either (is_flag false disabled))
    where
      cached :
          (key : Text)
          → Leads
              (Before login)
              Got
              (λ l. Unit {0})
              (do login ← self; cached_or_new F client key (dict_get key login.credentials_cache))
      cached key = leads (λ l b.
          Leads_lem
            (cached_or_new-Leads key (dict_get key l.credentials_cache)
              (ap (dict_get key) (sym b.0)))
            l b)

      either :
          (b : Bool)
          → Leads
              (Before login)
              Got
              (λ l. Unit {0})
              (if b
                then (do
                  key ← on_info (get_credentials_cache_key F.repr provider)
                  login ← self
                  cached_or_new F client key (dict_get key login.credentials_cache))
                else request_cred client)
      either true =
          bind-Leads
            (Keeps-Leads (on_info-Keeps (get_credentials_cache_key F.repr provider)) (λ l h. tt))
            cached
      either false = leads (λ l b. Asked-Got _ _ (Leads_lem request_cred-Leads l b))

  pub find_endpoint-Keeps : Keeps (Before login) (find_endpoint client)
  unfolding find_endpoint put_attr Before
  find_endpoint-Keeps = search (reading, λ (key : Text) (v : Attr). put_attr-Keeps key v) depth 20
    where
      put_attr-Keeps : (key : Text) (v : Attr) → Keeps (Before login) (put_attr key v)
      put_attr-Keeps key v = modify-Keeps (λ l b. b)
