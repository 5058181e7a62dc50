-- ===== src/Iam/Saml/Cached.antt =====
-- The credentials are kept: `get_credentials`.
use mathlib.Core.Path.{subst}
use amazon_redshift_python_d.Prelude.{◌≡◌, refl, false, Option, none, some, [], ◌∷◌}
use amazon_redshift_python_d.Prelude.Action.{Action, continue, pure, ◌>>◌}
use amazon_redshift_python_d.Prelude.Dict.{dict_get, dict_get-dict_set-eq, dict_set-same}
use amazon_redshift_python_d.Prelude.Int.{ℤ}
use amazon_redshift_python_d.Prelude.Keeps.{
  each, Ends, Leads, Leads_lem, leads, bind-Leads, Keeps-Leads,
}
use amazon_redshift_python_d.Prelude.Result.{Result, ok, err, key_error}
use amazon_redshift_python_d.Iam.Properties.{Attr, absent, flag, number, text, texts}
use amazon_redshift_python_d.Iam.Saml.Provider.{
  SamlCred, SamlOutside, SamlProvider, get_saml_credentials, is_stale, refresh_stale, keep_cred,
  saml_cache_key, take_cached, with_user,
}

with_user-again :
    (user : Attr) (cred : SamlCred) → with_user user (with_user user cred) ≡ with_user user cred
unfolding with_user
with_user-again absent cred = refl
with_user-again (flag b) cred = refl
with_user-again (number z) cred = refl
with_user-again (text []) cred = refl
with_user-again (text (c ∷ user)) cred = refl
with_user-again (texts ts) cred = refl

-- The cache has the credentials, with the user of the parameters.
Settled : SamlOutside → SamlCred → SamlProvider → Type 0
Settled F cred l =
    (dict_get (saml_cache_key F l) l.cache ≡ some cred) × (with_user l.db_user cred ≡ cred)

take_cached-Leads :
    (F : SamlOutside) → Leads (λ l. Unit {0}) (Settled F) (λ l. Unit {0}) (take_cached F)
unfolding take_cached keep_cred Settled saml_cache_key
take_cached-Leads F = leads (λ l h. found l (dict_get (saml_cache_key F l) l.cache))
  where
    found :
        (l : SamlProvider) (o : Option SamlCred)
        → let run =
            continue
              (elim o as (λ o. Result SamlCred) [ none ↦ err key_error | some cred ↦ ok cred ])
              l
              (λ cred. keep_cred F (with_user l.db_user cred) >> pure (with_user l.db_user cred)) in
          Ends (Settled F) (λ l. Unit {0}) run.0 run.1
    found l none = tt
    found l (some cred) = (
      dict_get-dict_set-eq (saml_cache_key F l) (with_user l.db_user cred) l.cache,
      with_user-again l.db_user cred,
    )

any_state :
    {A : Type 0} (m : Action SamlProvider A)
    → Leads (λ l. Unit {0}) (λ a l. Unit {0}) (λ l. Unit {0}) m
any_state m = Keeps-Leads (each (λ l h. h)) (λ l h. h)

get_saml_credentials-Leads :
    (F : SamlOutside) → Leads (λ l. Unit {0}) (Settled F) (λ l. Unit {0}) (get_saml_credentials F)
unfolding get_saml_credentials
get_saml_credentials-Leads F = bind-Leads (any_state (refresh_stale F)) (λ t. take_cached-Leads F)

refresh_stale-fresh :
    (F : SamlOutside) (l : SamlProvider) (cred : SamlCred)
    → dict_get (saml_cache_key F l) l.cache ≡ some cred
    → is_stale F (some cred) ≡ false
    → refresh_stale F l ≡ (ok tt, l)
unfolding refresh_stale
refresh_stale-fresh F l cred found fresh = rw (found, fresh) refl

take_cached-settled :
    (F : SamlOutside) (l : SamlProvider) (cred : SamlCred)
    → dict_get (saml_cache_key F l) l.cache ≡ some cred
    → with_user l.db_user cred ≡ cred
    → take_cached F l ≡ (ok cred, l)
unfolding take_cached keep_cred
take_cached-settled F l cred found user =
    rw (found, user, dict_set-same (saml_cache_key F l) cred l.cache found) refl

-- When get_credentials has returned credentials, a call that follows before they expire returns the same and
-- changes nothing: no assertion is asked for and no role is assumed.
pub get_saml_credentials-again :
    (F : SamlOutside) (later : ℤ) (p after : SamlProvider) (cred : SamlCred)
    → get_saml_credentials F p ≡ (ok cred, after)
    → is_stale (record F { time = later }) (some cred) ≡ false
    → get_saml_credentials (record F { time = later }) after ≡ (ok cred, after)
unfolding get_saml_credentials saml_cache_key Settled
get_saml_credentials-again F later p after cred done fresh =
    let (found, user) : Settled F cred after =
      subst (λ x. Ends (Settled F) (λ l. Unit {0}) x.0 x.1) done
        (Leads_lem (get_saml_credentials-Leads F) p tt) in
    rw
      (
        refresh_stale-fresh (record F { time = later }) after cred found fresh,
        take_cached-settled (record F { time = later }) after cred found user,
      )
      refl
