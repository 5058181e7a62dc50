-- ===== src/Session/Startup/Params.antt =====
-- redshift_connector/core.py, `Connection.__init__`: the parameters of the start-up message.
use amazon_redshift_python_d.Prelude.{
  ℕ, ◌+◌, Bool, true, false, not, ◌||◌, Option, none, some, List, [], ◌∷◌, ◌++◌, ◌==◌,
  if◌then◌else◌, length,
}
use amazon_redshift_python_d.Prelude.Dict.{dict_get}
use amazon_redshift_python_d.Prelude.Int.{ℤ, pos}
use amazon_redshift_python_d.Prelude.Result.{Result, ok, err, interface_error, ◌>>=◌}
use amazon_redshift_python_d.Prelude.Text.{Bytes, Text, in_texts, codes, split, str_int}
use amazon_redshift_python_d.Prelude.Text.Utf8.{encode}
use amazon_redshift_python_d.Paramstyle.{Style}
use amazon_redshift_python_d.Wire.{i, pack}

-- A connection parameter: None, str, bytes or a value of another class.
pub data InitValue : Type 0 where
  absent : InitValue
  str_param : Text → InitValue
  bytes_param : Bytes → InitValue
  other_param : InitValue

-- The password: None, str or bytes.
pub data Password : Type 0 where
  no_password : Password
  str_password : Text → Password
  bytes_password : Bytes → Password

-- The arguments of `connect` that the protocol needs, with what DriverInfo, the platform and the
-- calling module's name give.
pub record Options : Type 0 where
  pub user : InitValue
  pub password : Password
  pub database : InitValue
  pub application_name : InitValue
  pub replication : InitValue
  pub client_protocol_version : ℤ
  pub driver_version : Text
  pub os_version : Text
  pub credentials_provider : Option Text
  pub provider_name : Option Text
  pub web_identity_token : Option Text
  pub max_prepared_statements : ℕ
  pub numeric_to_float : Bool
  pub paramstyle : Style

last_part : List Text → Text
last_part [] = []
last_part (t ∷ []) = t
last_part (t ∷ u ∷ ts) = last_part (u ∷ ts)

-- `redshift_native_auth`
abbrev native_plugins : List Text
native_plugins =
    codes "BasicJwtCredentialsProvider" ∷ codes "BrowserAzureOAuth2CredentialsProvider" ∷ []

is_native : Option Text → Bool
unfolding last_part
is_native none = false
is_native (some provider) = in_texts (last_part (split b'.' provider)) native_plugins

is_truthy : InitValue → Bool
is_truthy absent = false
is_truthy (str_param t) = not (length t == 0)
is_truthy (bytes_param t) = not (length t == 0)
is_truthy other_param = true

provider_params : Option Text → Option Text → List (Text × InitValue)
provider_params none name = []
provider_params (some []) name = []
provider_params (some (c ∷ cs)) name =
    (codes "plugin_name", str_param (c ∷ cs))
    ∷ (if is_native (some (c ∷ cs))
        then (codes "idp_type", str_param (codes "AzureAD")) ∷ named_provider name
        else [])
  where
    named_provider : Option Text → List (Text × InitValue)
    named_provider none = []
    named_provider (some []) = []
    named_provider (some (d ∷ ds)) = (codes "provider_name", str_param (d ∷ ds)) ∷ []

-- init_params, in the dict's order. An empty credentials_provider is none.
unfoldable pub init_params : Options → List (Text × InitValue)
unfolding is_native is_truthy provider_params
init_params o =
    (
      codes "user",
      if not (is_native o.credentials_provider) || is_truthy o.user then o.user else str_param [],
    )
    ∷ (codes "database", o.database)
    ∷ (codes "application_name", o.application_name)
    ∷ (codes "replication", o.replication)
    ∷ (codes "client_protocol_version", str_param (str_int o.client_protocol_version))
    ∷ (codes "driver_version", str_param o.driver_version)
    ∷ (codes "os_version", str_param o.os_version)
    ∷ provider_params o.credentials_provider o.provider_name

-- Texts are encoded, and parameters that are None are left out.
unfoldable pub encode_params : List (Text × InitValue) → Result (List (Text × Bytes))
encode_params [] = ok []
encode_params ((k, absent) ∷ rest) = encode_params rest
encode_params ((k, str_param t) ∷ rest) = do
  bs ← encode t
  ps ← encode_params rest
  ok ((k, bs) ∷ ps)
encode_params ((k, bytes_param bs) ∷ rest) = do ps ← encode_params rest; ok ((k, bs) ∷ ps)
encode_params ((k, other_param) ∷ rest) =
    err (interface_error "The parameter can't be of this type.")

-- The parameters of the start-up message: the keys are ASCII.
params_bytes : List (Text × Bytes) → Bytes
params_bytes [] = 0 ∷ []
params_bytes ((k, bs) ∷ rest) = k ++ (0 ∷ (bs ++ (0 ∷ params_bytes rest)))

-- Int32(196608), the parameters and a zero byte, behind the length of all.
unfoldable pub startup_message : List (Text × Bytes) → Result Bytes
unfolding params_bytes
startup_message params = do
  protocol ← pack i (pos 196608)
  len ← pack i (pos (length (protocol ++ params_bytes params) + 4))
  ok (len ++ (protocol ++ params_bytes params))

-- init_params["user"], absent where it was None.
unfoldable pub user_of : List (Text × Bytes) → Bytes
unfolding dict_get
user_of params = elim (dict_get (codes "user") params) [ none ↦ [] | some u ↦ u ]
