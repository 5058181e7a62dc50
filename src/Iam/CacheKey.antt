-- ===== src/Iam/CacheKey.antt =====
-- redshift_connector/iam_helper.py: `get_credentials_cache_key`.
use amazon_redshift_python_d.Prelude.{
  Bool, true, false, List, [], ◌∷◌, ◌++◌, map, ◌==◌, if◌then◌else◌, length, ltb,
}
use amazon_redshift_python_d.Prelude.Action.{Action, pure, raise, lift, ◌>>=◌, ◌>>◌}
use amazon_redshift_python_d.Prelude.Result.{Result, ok, err, type_error}
use amazon_redshift_python_d.Prelude.Text.{Text, codes, str_int}
use amazon_redshift_python_d.Iam.Properties.{Attr, Info, absent, text, texts, flag, number, is_true}
use amazon_redshift_python_d.Iam.Login.{Provider, info_attr, info_put, info_serverless}

-- sorted() of texts
unfoldable pub text_le : Text → Text → Bool
text_le [] t = true
text_le (c ∷ s) [] = false
text_le (c ∷ s) (d ∷ t) = if c == d then text_le s t else ltb c d

unfoldable pub insert_text : Text → List Text → List Text
unfolding text_le
insert_text t [] = t ∷ []
insert_text t (u ∷ us) = if text_le t u then t ∷ (u ∷ us) else u ∷ insert_text t us

unfoldable pub sorted : List Text → List Text
unfolding insert_text
sorted [] = []
sorted (t ∷ ts) = insert_text t (sorted ts)

-- separator.join(texts)
unfoldable pub join_with : Text → List Text → Text
join_with separator [] = []
join_with separator (t ∷ []) = t
join_with separator (t ∷ (u ∷ us)) = t ++ (separator ++ join_with separator (u ∷ us))

-- str(value), where `repr` is that of lists
unfoldable pub str_attr : (List Text → Text) → Attr → Text
str_attr repr absent = codes "None"
str_attr repr (flag true) = codes "True"
str_attr repr (flag false) = codes "False"
str_attr repr (number z) = str_int z
str_attr repr (text t) = t
str_attr repr (texts ts) = repr ts

-- The values that bool() accepts, which have to be texts.
unfoldable pub key_parts : List Attr → Result (List Text)
key_parts [] = ok []
key_parts (text t ∷ rest) = elim (key_parts rest) [
  | err e ↦ err e
  | ok parts ↦ ok (if length t == 0 then parts else t ∷ parts)
]
key_parts (v ∷ rest) = elim (key_parts rest) [
  | err e ↦ err e
  | ok parts ↦ if is_true v then err type_error else ok parts
]

-- The groups are put in order.
unfoldable pub sort_groups : Attr → Action Info Text
unfolding sorted join_with
sort_groups (texts []) = pure []
sort_groups (texts groups) = do
  info_put (codes "db_groups") (texts (sorted groups))
  pure (join_with (codes ",") (sorted groups))
sort_groups (text []) = pure []
sort_groups (text group) = do
  info_put (codes "db_groups") (texts (sorted (map (λ c. c ∷ []) group)))
  pure (join_with (codes ",") (sorted (map (λ c. c ∷ []) group)))
sort_groups v = raise type_error

-- info.key or info.other
unfoldable pub attr_or : Text → Text → Action Info Attr
attr_or key other = do v ← info_attr key; w ← info_attr other; pure (if is_true v then v else w)

-- The key behind the groups.
unfoldable pub key_of : (List Text → Text) → Provider → Text → Action Info Text
unfolding attr_or str_attr key_parts join_with
key_of repr provider db_groups = do
  user ← attr_or (codes "db_user") (codes "user_name")
  db_name ← info_attr (codes "db_name")
  on_serverless ← info_serverless
  place ← info_attr (if on_serverless then codes "account_id" else codes "cluster_identifier")
  auto_create ← info_attr (codes "auto_create")
  duration ← info_attr (codes "duration")
  preferred_role ← info_attr (codes "preferred_role")
  web_identity_token ← info_attr (codes "web_identity_token")
  role_arn ← info_attr (codes "role_arn")
  role_session_name ← info_attr (codes "role_session_name")
  profile ← info_attr (codes "profile")
  key ← info_attr (codes "access_key_id")
  secret ← info_attr (codes "secret_access_key")
  token ← info_attr (codes "session_token")
  parts ← lift (
      key_parts (
        text provider.cache_key
        ∷ user
        ∷ db_name
        ∷ text db_groups
        ∷ place
        ∷ text (str_attr repr auto_create)
        ∷ text (str_attr repr duration)
        ∷ preferred_role
        ∷ web_identity_token
        ∷ role_arn
        ∷ role_session_name
        ∷ profile
        ∷ key
        ∷ secret
        ∷ token
        ∷ []))
  pure (join_with (codes ";") parts)

unfoldable pub get_credentials_cache_key : (List Text → Text) → Provider → Action Info Text
unfolding sort_groups key_of
get_credentials_cache_key repr provider = do
  groups ← info_attr (codes "db_groups")
  db_groups ← sort_groups groups
  key_of repr provider db_groups
