-- ===== src/Connection/Auth.antt =====
-- redshift_connector/core.py, `handle_AUTHENTICATION_REQUEST`, and
-- redshift_connector/utils/extensible_digest.py.
pub mod Replies
pub mod Kept
use amazon_redshift_python_d.Prelude.{
  ℕ, ◌+◌, ◌-◌, Bool, true, false, ◌&&◌, ◌||◌, Option, none, some, List, [], ◌∷◌, ◌++◌, ltb, leb,
  ◌==◌, if◌then◌else◌, length, drop, take,
}
use amazon_redshift_python_d.Prelude.Int.{ℤ, pos, negsuc, ◌+ℤ◌}
use amazon_redshift_python_d.Prelude.Result.{
  Result, ok, err, interface_error, index_error, type_error, attribute_error, malformed_value,
  connection_aborted_error, struct_error,
}
use amazon_redshift_python_d.Prelude.Action.{pure, raise, lift, self, modify, ◌>>=◌, ◌>>◌}
use amazon_redshift_python_d.Prelude.Text.{Bytes, Text, codes, slice, drop_last, split}
use amazon_redshift_python_d.Prelude.Text.Utf8.{encode, decode, decode_ascii}
use amazon_redshift_python_d.Connection.{Connection, Handler, Foreign, Scram}
use amazon_redshift_python_d.Connection.Sending.{write, send_message}
use amazon_redshift_python_d.Wire.{i, pack, unpack, create_message}

-- ExtensibleDigest.encode with SHA256: SHA2(SHA2(password + salt) + server_nonce + client_nonce).
unfoldable pub extensible_digest : (Bytes → Bytes) → Bytes → Bytes → Bytes → Bytes → Bytes
extensible_digest sha256 client_nonce password salt server_nonce =
    sha256 ((sha256 (password ++ salt) ++ server_nonce) ++ client_nonce)

-- algo_names[algo]: a tuple of one name, which a negative index counts from its end.
has_algo_name : ℤ → Result (Unit {0})
has_algo_name (pos n) = if n == 0 then ok tt else err index_error
has_algo_name (negsuc n) = if n == 0 then ok tt else err index_error

-- i_unpack(data, offset) and data[first:last], where a negative offset counts from the end.
unpack_at : Bytes → ℤ → Result ℤ
unpack_at data_bytes (pos n) = unpack i data_bytes n
unpack_at data_bytes (negsuc n) =
    if leb (n + 1) (length data_bytes)
    then unpack i data_bytes (length data_bytes - (n + 1))
    else err struct_error

bound_of : Bytes → ℤ → ℕ
bound_of data_bytes (pos n) = n
bound_of data_bytes (negsuc n) = length data_bytes - (n + 1)

slice_at : Bytes → ℤ → ℤ → Bytes
unfolding bound_of
slice_at data_bytes first last =
    slice data_bytes (bound_of data_bytes first) (bound_of data_bytes last)

-- `algo > len(algo_names)`
algo_too_large : ℤ → Bool
algo_too_large (pos n) = ltb 1 n
algo_too_large (negsuc n) = false

require_password : Option Bytes → Result Bytes
require_password none = err (interface_error "no password was provided")
require_password (some p) = ok p

-- self.auth, and `self.password` where Python would look up `None.decode`
scram_of : Option Scram → Result Scram
scram_of none = err attribute_error
scram_of (some s) = ok s

password_attribute : Option Bytes → Result Bytes
password_attribute none = err attribute_error
password_attribute (some p) = ok p

decode_all : List Bytes → Result (List Text)
decode_all [] = ok []
decode_all (m ∷ ms) = elim (decode_ascii m) [
  | err e ↦ err e
  | ok t ↦ elim (decode_all ms) [ err e ↦ err e | ok ts ↦ ok (t ∷ ts) ]
]

store_auth : Scram → Handler
store_auth s = modify (λ c. record c { auth = some s })

module _ (F : Foreign) where
  cleartext : Handler
  unfolding require_password
  cleartext = do c ← self; p ← lift (require_password c.password); send_message b'p' (p ++ (0 ∷ []))

  -- cccc_unpack(data, 4)
  salt_of : Bytes → Result Bytes
  salt_of body = let salt = slice body 4 8 in if length salt == 4 then ok salt else err struct_error

  md5_password : Bytes → Handler
  unfolding salt_of require_password
  md5_password body = do
    c ← self
    salt ← lift (salt_of body)
    p ← lift (require_password c.password)
    send_message b'p'
        ((codes "md5" ++ F.md5_hexdigest (F.md5_hexdigest (p ++ c.user) ++ salt)) ++ (0 ∷ []))

  sasl_init : Bytes → Handler
  unfolding decode_all password_attribute store_auth
  sasl_init body = do
    c ← self
    mechanisms ← lift (decode_all (split 0 (drop_last 1 (drop 4 body))))
    user ← lift (decode c.user)
    p ← lift (password_attribute c.password)
    password ← lift (decode p)
    let scram : Scram = record {
      mechanisms = mechanisms;
      user = user;
      password = password;
      server_first = none;
    }
    lift (F.scram_client scram)
    store_auth scram
    first ← lift (F.scram_client_first scram)
    init ← lift (encode first)
    len ← lift (pack i (pos (length init)))
    m ← lift (create_message b'p' ((codes "SCRAM-SHA-256" ++ (0 ∷ len)) ++ init))
    write m

  sasl_continue : Bytes → Handler
  unfolding scram_of store_auth
  sasl_continue body = do
    c ← self
    scram ← lift (scram_of c.auth)
    first ← lift (decode (drop 4 body))
    scram' ← lift (F.scram_set_server_first scram first)
    store_auth scram'
    final ← lift (F.scram_client_final scram')
    msg ← lift (encode final)
    m ← lift (create_message b'p' msg)
    write m

  sasl_final : Bytes → Handler
  unfolding scram_of
  sasl_final body = do
    c ← self
    scram ← lift (scram_of c.auth)
    last ← lift (decode (drop 4 body))
    lift (F.scram_set_server_final scram last)

  -- `if not aad_token`
  required_token : Option Text → Result Text
  required_token none = err connection_aborted_error
  required_token (some []) = err connection_aborted_error
  required_token (some (t ∷ ts)) = ok (t ∷ ts)

  idp_token : Handler
  unfolding required_token
  idp_token = do
    c ← self
    aad_token ← lift (required_token c.web_identity_token)
    token ← lift (encode aad_token)
    m ← lift (create_message b'i' token)
    write m

  digest : Bytes → Handler
  unfolding has_algo_name unpack_at slice_at bound_of algo_too_large require_password
      extensible_digest
  digest body = do
    c ← self
    algo ← lift (unpack i body 4)
    salt_len ← lift (unpack i body 8)
    let salt = slice_at body (pos 12) (pos 12 +ℤ salt_len)
    nonce_len ← lift (unpack_at body (pos 12 +ℤ salt_len))
    let server_nonce = slice_at body (pos 16 +ℤ salt_len) (pos 16 +ℤ salt_len +ℤ nonce_len)
    password ← lift (require_password c.password)
    lift (if algo_too_large algo then err (interface_error "algorithm is not supported") else ok tt)
    lift (has_algo_name algo)
    let answer = extensible_digest F.sha256 F.client_nonce password salt server_nonce
    write (b'd' ∷ [])
    total ← lift (pack i (pos (4 + 4 + length answer + 4 + length F.client_nonce)))
    write total
    answer_len ← lift (pack i (pos (length answer)))
    write answer_len
    write answer
    client_len ← lift (pack i (pos (length F.client_nonce)))
    write client_len
    write F.client_nonce

  authenticate : ℤ → Bytes → Handler
  authenticate (negsuc n) body = raise (interface_error "Authentication method not recognized")
  authenticate (pos code) body =
      if code == 0
      then pure tt
      else if code == 3
      then cleartext
      else if code == 5
      then md5_password body
      else if code == 10
      then sasl_init body
      else if code == 11
      then sasl_continue body
      else if code == 12
      then sasl_final body
      else if code == 14
      then idp_token
      else if code == 13
      then digest body
      else if code == 2 || code == 4 || (leb 6 code && leb code 9)
      then raise (interface_error "Authentication method not supported")
      else raise (interface_error "Authentication method not recognized")

  unfoldable pub handle_authentication_request : Bytes → Handler
  unfolding authenticate cleartext md5_password sasl_init sasl_continue sasl_final idp_token digest
  handle_authentication_request body = do code ← lift (unpack i body 0); authenticate code body
