-- ===== src/Tests/Auth.antt =====
-- Tests of the authentication.
use amazon_redshift_python_d.Prelude.{◌≡◌, refl, [], ◌∷◌, ◌++◌}
use amazon_redshift_python_d.Prelude.Int.{pos}
use amazon_redshift_python_d.Prelude.Result.{ok, err, index_error}
use amazon_redshift_python_d.Prelude.Text.{codes, Bytes}
use amazon_redshift_python_d.Connection.Sending.{flush_msg}
use amazon_redshift_python_d.Connection.Auth.{extensible_digest, handle_authentication_request}
use amazon_redshift_python_d.Connection.Auth.Replies.{digest-algorithm_one, cleartext-reply}
use amazon_redshift_python_d.Wire.{i, unpack, create_message, pack, be_bytes, be_value_from}
use amazon_redshift_python_d.Tests.Data.{outside_code, connection}

abbrev digest_one : Bytes
digest_one =
    0 ∷ 0 ∷ 0 ∷ 13 ∷ 0 ∷ 0 ∷ 0 ∷ 1 ∷ 0 ∷ 0 ∷ 0 ∷ 1 ∷ 65 ∷ 0 ∷ 0 ∷ 0 ∷ 1 ∷ 66 ∷ 0 ∷ 0 ∷ 0 ∷ 1 ∷ []

digest-algorithm_one_example :
    handle_authentication_request outside_code digest_one connection ≡ (err index_error, connection)
unfolding unpack be_value_from
digest-algorithm_one_example =
    digest-algorithm_one outside_code 1 1 (codes "pw") digest_one connection method algo salt nonce
      refl
  where
    method : unpack i digest_one 0 ≡ ok (pos 13)
    method = refl

    algo : unpack i digest_one 4 ≡ ok (pos 1)
    algo = refl

    salt : unpack i digest_one 8 ≡ ok (pos 1)
    salt = refl

    nonce : unpack i digest_one 13 ≡ ok (pos 1)
    nonce = refl

-- The same request with algorithm 0.
abbrev digest_zero : Bytes
digest_zero =
    0 ∷ 0 ∷ 0 ∷ 13 ∷ 0 ∷ 0 ∷ 0 ∷ 0 ∷ 0 ∷ 0 ∷ 0 ∷ 1 ∷ 65 ∷ 0 ∷ 0 ∷ 0 ∷ 1 ∷ 66 ∷ 0 ∷ 0 ∷ 0 ∷ 1 ∷ []

abbrev answer : Bytes
answer =
    extensible_digest outside_code.sha256 outside_code.client_nonce (codes "pw") (65 ∷ []) (66 ∷ [])

abbrev digest_data : Bytes
digest_data =
    (0 ∷ 0 ∷ 0 ∷ 5 ∷ []) ++ (answer ++ ((0 ∷ 0 ∷ 0 ∷ 1 ∷ []) ++ outside_code.client_nonce))

abbrev digest_message : Bytes
digest_message = b'd' ∷ 0 ∷ 0 ∷ 0 ∷ 18 ∷ digest_data

abbrev clear : Bytes
clear = 0 ∷ 0 ∷ 0 ∷ 3 ∷ []

abbrev password_message : Bytes
password_message = b'p' ∷ 0 ∷ 0 ∷ 0 ∷ 7 ∷ b'p' ∷ b'w' ∷ 0 ∷ []

cleartext-reply_example :
    handle_authentication_request outside_code clear connection
    ≡ (ok tt, record connection { output = password_message ++ flush_msg })
unfolding create_message pack unpack be_value_from be_bytes
cleartext-reply_example =
    cleartext-reply outside_code (codes "pw") clear password_message connection method refl refl
      framed
  where
    method : unpack i clear 0 ≡ ok (pos 3)
    method = refl

    framed : create_message b'p' (codes "pw" ++ (0 ∷ [])) ≡ ok password_message
    framed = refl
