-- ===== src/Iam/Reuse.antt =====
-- Temporary credentials are asked for once: redshift_connector/iam_helper.py, `credentials_cache`.
use mathlib.Core.Path.{subst}
use amazon_redshift_python_d.Prelude.{
  ◌≡◌, refl, sym, ap, ◌∙◌, Bool, true, false, not, Option, none, some, List, ◌⊎◌, inl, inr,
  if◌then◌else◌,
}
use amazon_redshift_python_d.Prelude.Action.{pure, self, ◌>>=◌, ◌>>◌}
use amazon_redshift_python_d.Prelude.Dict.{dict_get, dict_get-dict_set-eq}
use amazon_redshift_python_d.Prelude.Int.{ℤ, ltb_ℤ}
use amazon_redshift_python_d.Prelude.Keeps.{
  Keeps, each, Ends, Leads, Leads_lem, leads, bind-Leads, Keeps-Leads,
}
use amazon_redshift_python_d.Prelude.Result.{Result, ok, err}
use amazon_redshift_python_d.Prelude.Text.{Text, codes, text_eq}
use amazon_redshift_python_d.Iam.CacheKey.{get_credentials_cache_key}
use amazon_redshift_python_d.Iam.ClusterCredentials.{
  ask, cached_or_new, find_cred, request_cred, store_cred,
}
use amazon_redshift_python_d.Iam.Obtained.{is_fresh}
use amazon_redshift_python_d.Iam.Login.{
  Client, Cred, Login, Outside, Provider, Request, attr, on_info,
}
use amazon_redshift_python_d.Iam.Properties.{Info, flag, get}
use amazon_redshift_python_d.Iam.Reads.{get-ok, reading}
use amazon_redshift_python_d.Iam.Secured.{attr-Leads}
use amazon_redshift_python_d.Iam.SameKey.{get_credentials_cache_key-again}

untrue : (b : Bool) → not b ≡ true → b ≡ false
untrue true e = sym e
untrue false e = refl

-- A login that finds credentials that have not expired.
find_cred-cached :
    (F : Outside) (provider : Provider) (client : Client) (l : Login) (key : Text) (j : Info)
    (cred : Cred)
    → get (codes "iam_disable_cache") l.info ≡ ok (flag false)
    → get_credentials_cache_key F.repr provider l.info ≡ (ok key, j)
    → dict_get key l.credentials_cache ≡ some cred
    → is_fresh F.now cred ≡ true
    → find_cred F provider client l ≡ (ok cred, record l { info = j })
unfolding find_cred attr cached_or_new is_fresh
find_cred-cached F provider client l key j cred enabled keyed found fresh =
    rw (enabled, keyed, found, untrue (ltb_ℤ cred.expiration F.now) fresh) refl

module _ (F : Outside) (client : Client) (j : Info) (key : Text) where
  Found : Cred → Login → Type 0
  Found cred l = (l.info ≡ j) × (dict_get key l.credentials_cache ≡ some cred)

  request_cred-Keeps : Keeps (λ l. l.info ≡ j) (request_cred client)
  unfolding request_cred
  request_cred-Keeps = search (reading, ask-Keeps) depth 10
    where
      ask-Keeps : (request : Request) → Keeps (λ l. l.info ≡ j) (ask client request)
      ask-Keeps request = each (λ l h. h)

  stored-Leads :
      Leads
        (λ l. l.info ≡ j)
        Found
        (λ l. Unit {0})
        (do cred ← request_cred client; store_cred key cred; pure cred)
  unfolding Found store_cred
  stored-Leads =
      bind-Leads (Keeps-Leads request_cred-Keeps (λ l h. tt))
        (λ cred. leads (λ l h. (h, dict_get-dict_set-eq key cred l.credentials_cache)))

  cached_or_new-Leads :
      (cached : Option Cred)
      → Leads
          (λ l. (l.info ≡ j) × (dict_get key l.credentials_cache ≡ cached))
          Found
          (λ l. Unit {0})
          (cached_or_new F client key cached)
  unfolding cached_or_new Found
  cached_or_new-Leads none = leads (λ l h. Leads_lem stored-Leads l h.0)
  cached_or_new-Leads (some cred) = either (ltb_ℤ cred.expiration F.now)
    where
      either :
          (b : Bool)
          → Leads
              (λ l. (l.info ≡ j) × (dict_get key l.credentials_cache ≡ some cred))
              Found
              (λ l. Unit {0})
              (if b
                then (do fresh ← request_cred client; store_cred key fresh; pure fresh)
                else pure cred)
      either true = leads (λ l h. Leads_lem stored-Leads l h.0)
      either false = leads (λ l h. h)

-- The cache that a login leaves has its credentials, under the key of its properties.
Filled : Outside → Provider → Info → Cred → Login → Type 0
Filled F provider i cred l =
    (key : Text) × ((get_credentials_cache_key F.repr provider i ≡ (ok key, l.info))
      × (dict_get key l.credentials_cache ≡ some cred))

keyed-Leads :
    (repr : List Text → Text) (provider : Provider) (i : Info)
    → Leads
        (λ l. l.info ≡ i)
        (λ key l. get_credentials_cache_key repr provider i ≡ (ok key, l.info))
        (λ l. Unit {0})
        (on_info (get_credentials_cache_key repr provider))
keyed-Leads repr provider i =
    leads (λ l same. went l _ _ (ap (get_credentials_cache_key repr provider) (sym same)))
  where
    went :
        (l : Login) (r : Result Text) (j : Info)
        → get_credentials_cache_key repr provider i ≡ (r, j)
        → Ends
            (λ key l. get_credentials_cache_key repr provider i ≡ (ok key, l.info))
            (λ l. Unit {0})
            r
            (record l { info = j })
    went l (ok key) j e = e
    went l (err x) j e = tt

Found-Filled :
    (F : Outside) (provider : Provider) (client : Client) (i j : Info) (key : Text)
    (r : Result Cred) (l : Login)
    → get_credentials_cache_key F.repr provider i ≡ (ok key, j)
    → Ends (Found F client j key) (λ l. Unit {0}) r l
    → Ends (Filled F provider i) (λ l. Unit {0}) r l
unfolding Found Filled
Found-Filled F provider client i j key (err e) l keyed h = tt
Found-Filled F provider client i j key (ok cred) l keyed (same, found) =
    (key, (keyed ∙ ap (λ x. (ok key, x)) (sym same), found))

cache-Leads :
    (F : Outside) (provider : Provider) (client : Client) (i : Info)
    → Leads
        (λ l. l.info ≡ i)
        (Filled F provider i)
        (λ l. Unit {0})
        (do
          key ← on_info (get_credentials_cache_key F.repr provider)
          login ← self
          cached_or_new F client key (dict_get key login.credentials_cache))
cache-Leads F provider client i = bind-Leads (keyed-Leads F.repr provider i) (λ key.
    leads (λ l keyed. Found-Filled F provider client i l.info key _ _ keyed (
      Leads_lem (cached_or_new-Leads F client l.info key (dict_get key l.credentials_cache)) l
        (refl, refl))))

find_cred-Leads :
    (F : Outside) (provider : Provider) (client : Client) (i : Info)
    → dict_get (codes "iam_disable_cache") i ≡ some (flag false)
    → Leads (λ l. l.info ≡ i) (Filled F provider i) (λ l. Unit {0}) (find_cred F provider client)
unfolding find_cred
find_cred-Leads F provider client i enabled =
    bind-Leads (attr-Leads {P = λ l. l.info ≡ i} (codes "iam_disable_cache")) (λ disabled.
      leads (λ l (same, read).
        let off : disabled ≡ flag false = cc in
        rw off (Leads_lem (cache-Leads F provider client i) l same)))

-- Let the cache be enabled and a login's find_cred return credentials. A later login that finds the
-- cache as it was left then, and whose properties are those that the first had, or those that it left,
-- gets the same credentials of the same provider until they expire: it makes no request, and it leaves the
-- cache as it is and the properties as the first left them.
pub find_cred-reuse :
    (F : Outside) (provider : Provider) (client other : Client) (later : ℤ)
    (login after second : Login) (cred : Cred)
    → get (codes "iam_disable_cache") login.info ≡ ok (flag false)
    → find_cred F provider client login ≡ (ok cred, after)
    → is_fresh later cred ≡ true
    → second.credentials_cache ≡ after.credentials_cache
    → (second.info ≡ login.info) ⊎ (second.info ≡ after.info)
    → find_cred (record F { now = later }) provider other second
      ≡ (ok cred, record second { info = after.info })
unfolding Filled text_eq get
find_cred-reuse F provider client other later login after second cred enabled done fresh cache
      info =
    let (key, (keyed, found)) : Filled F provider login.info cred after =
      subst (λ x. Ends (Filled F provider login.info) (λ l. Unit {0}) x.0 x.1) done
        (Leads_lem
          (find_cred-Leads F provider client login.info
            (get-ok (codes "iam_disable_cache") login.info (flag false) enabled))
          login refl) in
    let found_again : dict_get key second.credentials_cache ≡ some cred = rw cache found in
    let (rest, again) =
      get_credentials_cache_key-again F.repr provider login.info after.info key
        (codes "iam_disable_cache") keyed refl in
    elim info [
      | inl before ↦
          find_cred-cached (record F { now = later }) provider other second key after.info cred
            (rw before enabled) (rw before keyed) found_again fresh
      | inr left ↦
          find_cred-cached (record F { now = later }) provider other second key after.info cred
            (rw
              (left, get, rest ∙ get-ok (codes "iam_disable_cache") login.info (flag false) enabled)
              refl)
            (rw left again) found_again fresh
    ]
