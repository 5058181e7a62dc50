-- ===== src/Connection/Auth/Replies.antt =====
-- What the driver answers to an AuthenticationRequest, and what it refuses.
use mathlib.Core.List.{append_assoc}
use amazon_redshift_python_d.Wire.RoundTrip.{create_message_parts}
use amazon_redshift_python_d.Prelude.{ℕ, ◌+◌, ◌≡◌, ◌∙◌, false, some, [], ◌∷◌, ◌++◌, arith}
use amazon_redshift_python_d.Prelude.Int.{pos, ◌+ℤ◌}
use amazon_redshift_python_d.Prelude.Result.{ok, err, index_error}
use amazon_redshift_python_d.Prelude.Text.{Bytes}
use amazon_redshift_python_d.Connection.{Connection, Foreign}
use amazon_redshift_python_d.Connection.Auth.{handle_authentication_request}
use amazon_redshift_python_d.Connection.Sending.{send_message, flush_msg}
use amazon_redshift_python_d.Wire.{i, unpack, create_message}

plus : (m n : ℕ) → pos m +ℤ pos n ≡ pos (m + n)
unfolding ◌+ℤ◌
plus m n = ground arith

-- A request for the extensible digest (13) with algorithm 1 ends in IndexError where a password is
-- set, whatever the salt and the nonce are: the test `algo > len(algo_names)` lets 1 through, and
-- there is one algorithm, number 0. Nothing is sent.
pub digest-algorithm_one :
    (F : Foreign) (salt_len nonce_len : ℕ) (password body : Bytes) (c : Connection)
    → unpack i body 0 ≡ ok (pos 13)
    → unpack i body 4 ≡ ok (pos 1)
    → unpack i body 8 ≡ ok (pos salt_len)
    → unpack i body (12 + salt_len) ≡ ok (pos nonce_len)
    → c.password ≡ some password
    → handle_authentication_request F body c ≡ (err index_error, c)
unfolding handle_authentication_request
digest-algorithm_one F salt_len nonce_len password body c method algo salt nonce set = rw (
  method,
  algo,
  salt,
  plus 12 salt_len,
  plus 16 salt_len,
  nonce,
  plus (16 + salt_len) nonce_len,
  set,
)

-- _send_message on an open connection writes the message and a Flush.
pub send_message-open :
    (code : ℕ) (body message : Bytes) (c : Connection)
    → c.closed ≡ false
    → create_message code body ≡ ok message
    → send_message code body c ≡ (ok tt, record c { output = c.output ++ (message ++ flush_msg) })
unfolding send_message
send_message-open code body message c opened framed =
    let (len, packed, parts) = create_message_parts code body message framed in
    simp (opened, packed, parts, append_assoc)

asks :
    (F : Foreign) (password body : Bytes) (c : Connection)
    → unpack i body 0 ≡ ok (pos 3)
    → c.password ≡ some password
    → handle_authentication_request F body c ≡ send_message b'p' (password ++ (0 ∷ [])) c
unfolding handle_authentication_request
asks F password body c method set = rw (method, set)

-- A request for a clear password (3) is answered by one PasswordMessage with the password and a zero
-- byte, and a Flush behind it, where the connection is open, a password is set and the message has a
-- length below 2^31; nothing else of the connection changes.
pub cleartext-reply :
    (F : Foreign) (password body message : Bytes) (c : Connection)
    → unpack i body 0 ≡ ok (pos 3)
    → c.password ≡ some password
    → c.closed ≡ false
    → create_message b'p' (password ++ (0 ∷ [])) ≡ ok message
    → handle_authentication_request F body c
      ≡ (ok tt, record c { output = c.output ++ (message ++ flush_msg) })
cleartext-reply F password body message c method set opened framed =
    asks F password body c method set
    ∙ send_message-open b'p' (password ++ (0 ∷ [])) message c opened framed
