-- ===== src/Iam/Saml/Provider.antt =====
-- redshift_connector/plugin/saml_credentials_provider.py: SamlCredentialsProvider, `get_credentials` and
-- `refresh`, with CredentialsHolder of redshift_connector/credentials_holder.py.
use amazon_redshift_python_d.Prelude.{
  ℕ, ◌+◌, Bool, true, Option, none, some, List, [], ◌∷◌, ◌++◌, map, if◌then◌else◌,
}
use amazon_redshift_python_d.Prelude.Action.{
  Action, pure, raise, lift, self, modify, except_do, ◌>>=◌, ◌>>◌,
}
use amazon_redshift_python_d.Prelude.Dict.{dict_get, dict_set}
use amazon_redshift_python_d.Prelude.Int.{ℤ, ltb_ℤ}
use amazon_redshift_python_d.Prelude.Result.{Exception, Result, ok, err, interface_error, key_error}
use amazon_redshift_python_d.Prelude.Text.{Text, codes}
use amazon_redshift_python_d.Iam.CacheKey.{str_attr}
use amazon_redshift_python_d.Iam.Login.{info_attr, Holder, saml_holder, IamMetadata}
use amazon_redshift_python_d.Iam.Properties.{Info, Attr, is_true, text}
use amazon_redshift_python_d.Iam.Saml.Assertion.{Document, Unicode, read_metadata, read_roles}

-- response["Credentials"]
pub record StsCred : Type 0 where
  pub access_key : Text
  pub secret_key : Text
  pub session_token : Text
  pub expires : ℤ

-- CredentialsHolder
pub record SamlCred : Type 0 where
  pub sts : StsCred
  pub metadata : IamMetadata

pub record SamlOutside : Type 0 where
  pub unicode : Unicode
  -- random.choice of a list that is not empty
  pub choice : List Text → Text
  -- the n-th call of get_saml_assertion; the document of an assertion; assume_role_with_saml; the time
  pub get_saml_assertion : ℕ → Result Text
  pub soup : Text → Result Document
  pub assume_role : Text → Text → Text → Result StsCred
  pub time : ℤ
  pub repr_list : List Text → Text

-- The provider: its parameters, the calls of get_saml_assertion and the roles assumed so far.
pub record SamlProvider : Type 0 where
  pub user_name : Attr
  pub password : Attr
  pub idp_host : Attr
  pub idp_port : Attr
  pub duration : Attr
  pub preferred_role : Attr
  pub db_user : Attr
  pub cache : List (Text × SamlCred)
  pub calls : ℕ
  pub assumed : List (Text × Text)

-- A new provider behind add_parameter.
unfoldable pub new_saml_provider : Action Info SamlProvider
new_saml_provider = do
  user_name ← info_attr (codes "user_name")
  password ← info_attr (codes "password")
  idp_host ← info_attr (codes "idp_host")
  idp_port ← info_attr (codes "idpPort")
  duration ← info_attr (codes "duration")
  preferred_role ← info_attr (codes "preferred_role")
  db_user ← info_attr (codes "db_user")
  pure (record {
    user_name = user_name;
    password = password;
    idp_host = idp_host;
    idp_port = idp_port;
    duration = duration;
    preferred_role = preferred_role;
    db_user = db_user;
    cache = [];
    calls = 0;
    assumed = [];
  })

-- get_cache_key
unfoldable pub saml_cache_key : SamlOutside → SamlProvider → Text
unfolding str_attr
saml_cache_key F p =
    str_attr F.repr_list p.user_name
    ++ (str_attr F.repr_list p.password
        ++ (str_attr F.repr_list p.idp_host
            ++ (str_attr F.repr_list p.idp_port
                ++ (str_attr F.repr_list p.duration ++ str_attr F.repr_list p.preferred_role))))

-- A role with roles[role], which is missing otherwise.
unfoldable pub role_with : Exception → Text → List (Text × Text) → Result (Text × Text)
role_with missing role roles = elim (dict_get role roles) [
  | none ↦ err missing
  | some provider ↦ ok (role, provider)
]

-- The role to assume: the preferred one, or any.
unfoldable pub choose_role : SamlOutside → Attr → List (Text × Text) → Result (Text × Text)
unfolding role_with
choose_role F preferred [] = err (interface_error "No role found in SamlAssertion")
choose_role F (text (c ∷ role)) (r ∷ roles) =
    role_with (interface_error "Preferred role not found in SamlAssertion") (c ∷ role) (r ∷ roles)
choose_role F preferred (r ∷ roles) =
    if is_true preferred
    then err (interface_error "Preferred role not found in SamlAssertion")
    else role_with key_error (F.choice (map (λ e. e.0) (r ∷ roles))) (r ∷ roles)

-- A failure of get_saml_assertion becomes InterfaceError.
unfoldable pub ask_assertion : SamlOutside → Action SamlProvider Text
ask_assertion F = do
  p ← self
  modify (λ p. record p { calls = p.calls + 1 })
  except_do (lift (F.get_saml_assertion p.calls))
      (λ e. raise (interface_error "Get saml assertion failed"))

unfoldable pub assume : SamlOutside → Text → Text × Text → Action SamlProvider StsCred
assume F assertion (role, principal) = do
  modify (λ p. record p { assumed = p.assumed ++ ((role, principal) ∷ []) })
  lift (F.assume_role role principal assertion)

unfoldable pub keep_cred : SamlOutside → SamlCred → Action SamlProvider (Unit {0})
unfolding saml_cache_key dict_set
keep_cred F cred = modify (λ p. record p { cache = dict_set (saml_cache_key F p) cred p.cache })

unfoldable pub refresh : SamlOutside → Action SamlProvider (Unit {0})
unfolding ask_assertion choose_role assume keep_cred
refresh F = do
  assertion ← ask_assertion F
  doc ← lift (F.soup assertion)
  roles ← lift (read_roles F.unicode (doc (codes "Attribute")) [])
  p ← self
  chosen ← lift (choose_role F p.preferred_role roles)
  sts ← assume F assertion chosen
  metadata ← lift (read_metadata F.unicode doc)
  keep_cred F (record { sts = sts; metadata = metadata })

-- is_expired, for what is in the cache
unfoldable pub is_stale : SamlOutside → Option SamlCred → Bool
is_stale F none = true
is_stale F (some cred) = ltb_ℤ cred.sts.expires F.time

-- credentials.metadata.set_db_user(db_user), if there is one, which is a str
unfoldable pub with_user : Attr → SamlCred → SamlCred
with_user (text (c ∷ user)) cred = record cred {
  metadata = record cred.metadata { db_user = some (c ∷ user) };
}
with_user v cred = cred

-- The credentials that are returned are those in the cache: the change is seen in both.
unfoldable pub take_cached : SamlOutside → Action SamlProvider SamlCred
unfolding keep_cred with_user
take_cached F = do
  p ← self
  cred ←
      lift (elim (dict_get (saml_cache_key F p) p.cache) [
        | none ↦ err key_error
        | some cred ↦ ok cred
      ])
  keep_cred F (with_user p.db_user cred)
  pure (with_user p.db_user cred)

unfoldable pub refresh_stale : SamlOutside → Action SamlProvider (Unit {0})
unfolding refresh is_stale
refresh_stale F = do
  p ← self
  if is_stale F (dict_get (saml_cache_key F p) p.cache)
      then except_do (refresh F) (λ e. raise (interface_error "Refreshing IdP credentials failed"))
      else pure tt

unfoldable pub get_saml_credentials : SamlOutside → Action SamlProvider SamlCred
unfolding refresh_stale take_cached
get_saml_credentials F = do refresh_stale F; take_cached F

-- What set_iam_credentials and set_cluster_credentials read: get_metadata and get_session_credentials.
unfoldable pub holder_of : SamlCred → Holder
holder_of cred = saml_holder (some cred.metadata) (
    (codes "aws_access_key_id", text cred.sts.access_key)
    ∷ (codes "aws_secret_access_key", text cred.sts.secret_key)
    ∷ (codes "aws_session_token", text cred.sts.session_token)
    ∷ [])
