-- ===== src/Iam/Channel.antt =====
-- `connect` and the socket of Connection: the mode of TLS that is left decides whether it is wrapped.
use mathlib.Core.Path.{subst}
use amazon_redshift_python_d.Prelude.{
  ◌≡◌, refl, Bool, true, false, not, ◌&&◌, ◌||◌, none, some, if◌then◌else◌,
}
use amazon_redshift_python_d.Prelude.Action.{continue, lift, modify, pure, raise, ◌>>◌}
use amazon_redshift_python_d.Prelude.Dict.{dict_get}
use amazon_redshift_python_d.Prelude.Keeps.{
  Keeps, each, keeping, Ends, Leads, Leads_lem, leads, bind-Leads, Keeps-Leads,
}
use amazon_redshift_python_d.Prelude.Result as Result
use amazon_redshift_python_d.Prelude.Result.{Result, ok, err, attribute_error, programming_error}
use amazon_redshift_python_d.Prelude.Text.{Text, codes, text_eq}
use amazon_redshift_python_d.Iam.AuthProperties.{is_supported, need_cluster}
use amazon_redshift_python_d.Iam.Connect.{
  channel, check_arguments, is_native_auth, on_properties, plain, prepare_connection, set_from_host,
  set_iam_credentials, set_iam_properties, tls,
}
use amazon_redshift_python_d.Iam.Login.{Login, Outside}
use amazon_redshift_python_d.Iam.Plugins.{set_native_auth_plugin_properties}
use amazon_redshift_python_d.Iam.Reads.{attr-Keeps, get-ok, reading, serverless-Keeps}
use amazon_redshift_python_d.Iam.Properties.{
  Attr, Info, absent, text, texts, flag, number, get, is_flag, is_true, put, put_group,
  set_account_id_from_host, set_region_from_host,
}
use amazon_redshift_python_d.Iam.Serverless.{fullmatch}
use amazon_redshift_python_d.Iam.Secured.{
  IsSecured, Safe, Unused, attr-Leads, is_other, kept-Leads, need_cluster-Keeps, put-IsSecured,
  secure, set_auth_properties-Leads,
}
use amazon_redshift_python_d.Iam.Secured.Cluster.{set_iam_credentials-Keeps}
use amazon_redshift_python_d.Iam.Secured.Plugins.{set_native-Keeps}

-- A result that raises has no properties to be secured.
Returns : Result Info → Type 0
Returns (ok info) = IsSecured info
Returns (err e) = Unit {0}

returned :
    (r : Result Info) (l : Login)
    → Safe l
    → Returns r
    → Safe (continue (lift r l).0 (lift r l).1 (λ next. modify (λ l. record l { info = next }))).1
unfolding Returns
returned (ok info) l safe r = r
returned (err e) l safe r = safe

on_properties-Keeps :
    (f : Info → Result Info)
    → ((info : Info) → IsSecured info → Returns (f info))
    → Keeps Safe (on_properties f)
on_properties-Keeps f keeps = each (λ l h. returned (f l.info) l h (keeps l.info h))

group-Returns :
    (key : Text) (part : Text × Text → Text) (host : Attr) (info : Info)
    → is_other key ≡ true
    → IsSecured info
    → Returns (put_group key part host info)
unfolding Returns put_group
group-Returns key part (text host) info other h =
    elim (fullmatch host)
      as (λ o.
        IsSecured (elim o [ none ↦ info | some groups ↦ put key (text (part groups)) info ])) [
          | none ↦ h
          | some groups ↦ put-IsSecured key (text (part groups)) info other h
        ]
group-Returns key part absent info other h = tt
group-Returns key part (flag b) info other h = tt
group-Returns key part (number z) info other h = tt
group-Returns key part (texts ts) info other h = tt

host-Returns :
    (key : Text) (part : Text × Text → Text) (host : Result Attr) (info : Info)
    → is_other key ≡ true
    → IsSecured info
    → Returns (Result.◌>>=◌ host (λ host. put_group key part host info))
unfolding Returns
host-Returns key part (err e) info other h = tt
host-Returns key part (ok host) info other h = group-Returns key part host info other h

account-Returns : (info : Info) → IsSecured info → Returns (set_account_id_from_host info)
unfolding set_account_id_from_host text_eq
account-Returns info h =
    host-Returns (codes "account_id") (λ p. p.0) (get (codes "host") info) info refl h

region-Returns : (info : Info) → IsSecured info → Returns (set_region_from_host info)
unfolding set_region_from_host text_eq
region-Returns info h =
    host-Returns (codes "region") (λ p. p.1) (get (codes "host") info) info refl h

set_from_host-Keeps : Keeps Safe set_from_host
unfolding set_from_host
set_from_host-Keeps =
    search
      (
        reading,
        on_properties-Keeps set_account_id_from_host account-Returns,
        on_properties-Keeps set_region_from_host region-Returns,
      )
      depth 20

-- The rest of set_iam_properties.
after_auth-Keeps :
    (F : Outside) (on_serverless : Bool) (iam : Attr)
    → Keeps Safe (do
      if on_serverless && is_true iam
          then raise (programming_error "This feature is not yet available")
          else pure tt
      set_from_host
      if is_flag true iam then (do need_cluster; set_iam_credentials F) else pure tt
      set_native_auth_plugin_properties F)
after_auth-Keeps F on_serverless iam =
    search
      (
        keeping, set_from_host-Keeps, need_cluster-Keeps, set_iam_credentials-Keeps,
        set_native-Keeps,
      )
      depth 20

pub set_iam_properties-Leads :
    (F : Outside) → Leads Unused (λ (t : Unit {0}). Safe) (λ l. Unit {0}) (set_iam_properties F)
unfolding set_iam_properties
set_iam_properties-Leads F = bind-Leads (set_auth_properties-Leads F) (λ t.
    bind-Leads (kept-Leads serverless-Keeps) (λ on_serverless.
      bind-Leads (kept-Leads (attr-Keeps (codes "iam")))
        (λ iam. kept-Leads (after_auth-Keeps F on_serverless iam))))

-- What a login reads first is what its properties say.
check_arguments-Keeps : {P : Login → Type 0} → Keeps P check_arguments
unfolding check_arguments
check_arguments-Keeps = search (keeping, attr-Keeps) depth 20

-- The properties of a caller who has no profile and does not bypass set_iam_properties.
Given : Attr → Attr → Login → Type 0
Given iam provider l =
    Unused l
    × ((dict_get (codes "iam") l.info ≡ some iam)
        × (dict_get (codes "credentials_provider") l.info ≡ some provider))

used-Leads :
    (F : Outside) (iam provider read asked : Attr)
    → is_native_auth iam provider ≡ false
    → Leads
        (λ l.
          (Given iam provider l × (dict_get (codes "iam") l.info ≡ some read))
          × (dict_get (codes "credentials_provider") l.info ≡ some asked))
        (λ (t : Unit {0}). Safe)
        (λ l. Unit {0})
        (if is_native_auth read asked then pure tt else set_iam_properties F)
unfolding Given
used-Leads F iam provider read asked other = leads (λ l (((unused, (a, b)), c), d).
    let same : is_native_auth read asked ≡ false = cc in
    rw same (Leads_lem (set_iam_properties-Leads F) l unused))

prepare_connection-Leads :
    (F : Outside) (iam provider : Attr)
    → is_native_auth iam provider ≡ false
    → Leads (Given iam provider) (λ (t : Unit {0}). Safe) (λ l. Unit {0}) (prepare_connection F)
unfolding prepare_connection Given
prepare_connection-Leads F iam provider other =
    bind-Leads (Keeps-Leads check_arguments-Keeps (λ l h. tt)) (λ t.
      bind-Leads (attr-Leads (codes "iam")) (λ read.
        bind-Leads (attr-Leads (codes "credentials_provider"))
          (λ asked. used-Leads F iam provider read asked other)))

wrapped :
    (on authority name : Bool)
    → on ≡ true
    → not on || (authority || name) ≡ true
    → (named : Bool) × ((if on
          then if authority then tls false else if name then tls true else plain
          else plain)
        ≡ tls named)
wrapped true true name e safe = (false, refl)
wrapped true false true e safe = (true, refl)
wrapped true false false e safe = cc
wrapped false authority name e safe = cc

tls_channel :
    (ssl mode : Attr)
    → is_flag true ssl ≡ true
    → not (is_flag true ssl) || is_supported mode ≡ true
    → (named : Bool) × (channel ssl mode ≡ tls named)
unfolding channel
tls_channel ssl mode on safe = wrapped _ _ _ on safe

-- Let `connect` be called without an authentication profile, and not with both iam and the provider
-- BasicJwtCredentialsProvider. Whatever the plugins, boto3 and the cache give, when it reaches the
-- call of Connection and ssl is True in the properties that it passes on, then Connection wraps the
-- socket that the server agreed to secure: it is never left plain.
pub prepare_connection-channel :
    (F : Outside) (login after : Login) (iam provider ssl mode : Attr)
    → get (codes "auth_profile") login.info ≡ ok absent
    → get (codes "iam") login.info ≡ ok iam
    → get (codes "credentials_provider") login.info ≡ ok provider
    → is_native_auth iam provider ≡ false
    → prepare_connection F login ≡ (ok tt, after)
    → get (codes "ssl") after.info ≡ ok ssl
    → is_flag true ssl ≡ true
    → get (codes "sslmode") after.info ≡ ok mode
    → (named : Bool) × (channel ssl mode ≡ tls named)
unfolding Given
prepare_connection-channel F login after iam provider ssl mode unused asked named other done secured
      on chosen =
    let (profile, safe) : Safe after =
      subst (λ x. Ends (λ (t : Unit {0}). Safe) (λ l. Unit {0}) x.0 x.1) done
        (Leads_lem (prepare_connection-Leads F iam provider other) login
          (get-ok _ _ _ unused, (get-ok _ _ _ asked, get-ok _ _ _ named))) in
    tls_channel ssl mode on (
      subst (λ o. secure (some ssl) o ≡ true) (get-ok _ _ _ chosen)
        (subst (λ o. secure o (dict_get (codes "sslmode") after.info) ≡ true) (get-ok _ _ _ secured)
          safe))
