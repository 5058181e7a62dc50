-- ===== src/Iam/Secured.antt =====
-- The mode of TLS that a login leaves; Plugins and Cluster have the operations that leave it as it is.
pub mod Plugins
pub mod Cluster
use amazon_redshift_python_d.Prelude.{
  ℕ, ◌≡◌, refl, Bool, true, false, not, ◌&&◌, ◌||◌, Option, none, some, List, [], ◌∷◌, inl, inr,
  Bool-cases, if◌then◌else◌,
}
use amazon_redshift_python_d.Prelude.Action.{Action, lift, modify, pure}
use amazon_redshift_python_d.Prelude.Dict.{
  dict_get, dict_set, dict_get-dict_set-eq, dict_get-dict_set-ne,
}
use amazon_redshift_python_d.Prelude.Keeps.{
  Keeps, Keeps_lem, each, keeping, if-Keeps, lift-Keeps, raise-Keeps, modify-Keeps, except_do-Keeps,
  Ends, Leads, Leads_lem, leads, bind-Leads, Keeps-Leads,
}
use amazon_redshift_python_d.Prelude.Result.{Exception, Result, ok, err, attribute_error}
use amazon_redshift_python_d.Prelude.Text.{Text, codes, text_eq}
use amazon_redshift_python_d.Iam.AuthProperties.{
  check_credentials, check_iam, is_string, is_supported, lower_groups, need_cluster, use_profile,
  set_auth_properties, set_sslmode,
}
use amazon_redshift_python_d.Iam.ClusterCredentials.{set_cluster_credentials}
use amazon_redshift_python_d.Iam.Login.{
  Login, Outside, Provider, Task, attr, on_info, put_attr, serverless,
}
use amazon_redshift_python_d.Iam.Reads.{attr-Keeps, serverless-Keeps}
use amazon_redshift_python_d.Iam.Properties.{
  Attr, Info, absent, text, texts, flag, number, get, is_flag, put,
}

-- The attributes that the invariant is about.
abbrev pub is_other : Text → Bool
is_other key =
    not (text_eq key (codes "ssl"))
    && (not (text_eq key (codes "sslmode")) && not (text_eq key (codes "auth_profile")))

-- With TLS the mode is one of the two that test the server's certificate.
abbrev pub secure : Option Attr → Option Attr → Bool
secure (some ssl) (some sslmode) = not (is_flag true ssl) || is_supported sslmode
secure ssl sslmode = true

abbrev pub IsSecured : Info → Type 0
IsSecured info =
    (dict_get (codes "auth_profile") info ≡ some absent)
    × (secure (dict_get (codes "ssl") info) (dict_get (codes "sslmode") info) ≡ true)

abbrev pub Safe : Login → Type 0
Safe login = IsSecured login.info

put-other :
    (m key : Text) (value : Attr) (info : Info)
    → text_eq key m ≡ false
    → dict_get m (put key value info) ≡ dict_get m info
unfolding put
put-other m key absent info ne = refl
put-other m key (flag b) info ne = dict_get-dict_set-ne m key (flag b) info ne
put-other m key (number z) info ne = dict_get-dict_set-ne m key (number z) info ne
put-other m key (text t) info ne = dict_get-dict_set-ne m key (text t) info ne
put-other m key (texts ts) info ne = dict_get-dict_set-ne m key (texts ts) info ne

other-ne :
    (a b c : Bool) → not a && (not b && not c) ≡ true → (a ≡ false) × (b ≡ false) × (c ≡ false)
other-ne false false false e = (refl, refl, refl)
other-ne true b c e = cc
other-ne false true c e = cc
other-ne false false true e = cc

pub put-IsSecured :
    (key : Text) (value : Attr) (info : Info)
    → is_other key ≡ true
    → IsSecured info
    → IsSecured (put key value info)
put-IsSecured key value info other (profile, mode) =
    let (a, b, c) = other-ne _ _ _ other in
    rw
      (
        put-other (codes "auth_profile") key value info c,
        put-other (codes "ssl") key value info a,
        put-other (codes "sslmode") key value info b,
      )
      (profile, mode)

pub put_attr-Keeps :
    (key : Text) (value : Attr) → is_other key ≡ true → Keeps Safe (put_attr key value)
unfolding put_attr
put_attr-Keeps key value other = modify-Keeps (λ l h. put-IsSecured key value l.info other h)

pub need_cluster-Keeps : Keeps Safe need_cluster
unfolding need_cluster
need_cluster-Keeps = search (keeping, attr-Keeps, serverless-Keeps) depth 10

-- An attribute that is read has the value that is read.
pub attr-Leads :
    {P : Login → Type 0} (key : Text)
    → Leads P (λ v l. P l × (dict_get key l.info ≡ some v)) (λ l. Unit {0}) (attr key)
unfolding attr get
attr-Leads {P} key = leads (λ l p. found l p (dict_get key l.info) refl)
  where
    found :
        (l : Login)
        → P l
        → (o : Option Attr) → dict_get key l.info ≡ o
        → Ends
            (λ v l. P l × (dict_get key l.info ≡ some v))
            (λ l. Unit {0})
            (elim o as (λ o. Result Attr) [ none ↦ err attribute_error | some v ↦ ok v ])
            l
    found l p none e = tt
    found l p (some v) e = (p, e)

abbrev pub Unused : Login → Type 0
Unused l = dict_get (codes "auth_profile") l.info ≡ some absent

chosen-Leads :
    (ssl mode : Attr) (a b : Bool)
    → is_flag true ssl ≡ a
    → is_supported mode ≡ b
    → Leads
        (λ l.
          (Unused l × (dict_get (codes "ssl") l.info ≡ some ssl))
          × (dict_get (codes "sslmode") l.info ≡ some mode))
        (λ (t : Unit {0}). Safe)
        (λ l. Unit {0})
        (if a
          then if b then pure tt else put_attr (codes "sslmode") (text (codes "verify-ca"))
          else put_attr (codes "sslmode") (text []))
unfolding put_attr put text_eq
chosen-Leads ssl mode true true s m = leads (λ l ((u, e), f). (u, rw (e, f, s, m) refl))
chosen-Leads ssl mode true false s m = leads (λ l ((u, e), f). (
  rw (put-other (codes "auth_profile") (codes "sslmode") _ l.info refl) u,
  rw
      (
        put-other (codes "ssl") (codes "sslmode") _ l.info refl,
        e,
        dict_get-dict_set-eq (codes "sslmode") (text (codes "verify-ca")) l.info,
        s,
      )
      refl,
))
chosen-Leads ssl mode false b s m = leads (λ l ((u, e), f). (
  rw (put-other (codes "auth_profile") (codes "sslmode") _ l.info refl) u,
  rw
      (
        put-other (codes "ssl") (codes "sslmode") _ l.info refl,
        e,
        dict_get-dict_set-eq (codes "sslmode") (text []) l.info,
        s,
      )
      refl,
))

set_sslmode-Leads : Leads Unused (λ (t : Unit {0}). Safe) (λ l. Unit {0}) set_sslmode
unfolding set_sslmode
set_sslmode-Leads =
    bind-Leads (attr-Leads (codes "ssl")) (λ ssl.
      bind-Leads (attr-Leads (codes "sslmode")) (λ mode. chosen-Leads ssl mode _ _ refl refl))

if_put-Keeps :
    (b : Bool) (key : Text) (value : Attr)
    → is_other key ≡ true
    → Keeps Safe (if b then put_attr key value else pure tt)
if_put-Keeps b key value other = if-Keeps b (put_attr-Keeps key value other) (lift-Keeps _)

is_string-Keeps : (v : Attr) → Keeps Safe (is_string v)
unfolding is_string
is_string-Keeps absent = raise-Keeps _
is_string-Keeps (flag b) = raise-Keeps _
is_string-Keeps (number z) = raise-Keeps _
is_string-Keeps (text t) = lift-Keeps _
is_string-Keeps (texts ts) = raise-Keeps _

check_credentials-Keeps : Keeps Safe check_credentials
unfolding check_credentials text_eq
check_credentials-Keeps =
    search
      (
        keeping,
        attr-Keeps,
        is_string-Keeps,
        λ (v : Attr). put_attr-Keeps (codes "secret_access_key") v refl,
      )
      depth 30 fits 5000

check_iam-Keeps : (F : Outside) → Keeps Safe (check_iam F)
unfolding check_iam
check_iam-Keeps F = search (keeping, need_cluster-Keeps, check_credentials-Keeps) depth 10

lower_groups-Keeps :
    (F : Outside) (groups force_lowercase : Attr)
    → Keeps Safe (lower_groups F groups force_lowercase)
unfolding lower_groups text_eq
lower_groups-Keeps F (texts groups) f =
    search (keeping, λ (v : Attr). put_attr-Keeps (codes "db_groups") v refl) depth 10
lower_groups-Keeps F (text group) f =
    search (keeping, λ (v : Attr). put_attr-Keeps (codes "db_groups") v refl) depth 10
lower_groups-Keeps F absent f = search keeping depth 10
lower_groups-Keeps F (flag b) f = search keeping depth 10
lower_groups-Keeps F (number z) f = search keeping depth 10

-- No profile is read where there is none.
use_profile-Leads :
    (F : Outside) (profile : Attr)
    → Leads
        (λ l. Safe l × (dict_get (codes "auth_profile") l.info ≡ some profile))
        (λ (t : Unit {0}). Safe)
        (λ l. Unit {0})
        (use_profile F profile)
unfolding use_profile
use_profile-Leads F absent = leads (λ l (safe, e). safe)
use_profile-Leads F (flag b) = leads (λ l (safe, e). absurd (cc safe.0))
use_profile-Leads F (number z) = leads (λ l (safe, e). absurd (cc safe.0))
use_profile-Leads F (text t) = leads (λ l (safe, e). absurd (cc safe.0))
use_profile-Leads F (texts ts) = leads (λ l (safe, e). absurd (cc safe.0))

pub kept-Leads :
    {A : Type 0} {m : Action Login A} → Keeps Safe m → Leads Safe (λ a. Safe) (λ l. Unit {0}) m
kept-Leads keeps = Keeps-Leads keeps (λ l h. tt)

pub set_auth_properties-Leads :
    (F : Outside) → Leads Unused (λ (t : Unit {0}). Safe) (λ l. Unit {0}) (set_auth_properties F)
unfolding set_auth_properties
set_auth_properties-Leads F = bind-Leads set_sslmode-Leads (λ t.
    bind-Leads (kept-Leads (attr-Keeps (codes "iam"))) (λ iam.
      bind-Leads (kept-Leads (if-Keeps _ (check_iam-Keeps F) (lift-Keeps (ok tt)))) (λ t1.
        bind-Leads (kept-Leads (attr-Keeps (codes "db_groups"))) (λ groups.
          bind-Leads (kept-Leads (attr-Keeps (codes "force_lowercase"))) (λ f.
            bind-Leads (kept-Leads (lower_groups-Keeps F groups f))
              (λ t2. bind-Leads (attr-Leads (codes "auth_profile")) (use_profile-Leads F)))))))
