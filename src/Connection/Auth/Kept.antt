-- ===== src/Connection/Auth/Kept.antt =====
-- The answers to an AuthenticationRequest keep the connection coherent.
use amazon_redshift_python_d.Prelude.Int.{ℤ, pos, negsuc}
use amazon_redshift_python_d.Prelude.Keeps.{Keeps, modify-Keeps, keeping}
use amazon_redshift_python_d.Prelude.Text.{Bytes}
use amazon_redshift_python_d.Connection.{Foreign, Scram}
use amazon_redshift_python_d.Connection.Coherent.{IsCoherent, Tracked}
use amazon_redshift_python_d.Connection.Auth.{
  authenticate, cleartext, digest, handle_authentication_request, idp_token, md5_password,
  sasl_continue, sasl_final, sasl_init, store_auth,
}
use amazon_redshift_python_d.Connection.Sending.Kept.{write-Keeps, send_message-Keeps}

module _ (T : Tracked) where
  store_auth-Keeps : (s : Scram) → Keeps (IsCoherent T) (store_auth s)
  unfolding store_auth IsCoherent
  store_auth-Keeps s = modify-Keeps (λ c h. h)

  module _ (F : Foreign) where
    cleartext-Keeps : Keeps (IsCoherent T) (cleartext F)
    unfolding cleartext
    cleartext-Keeps = search (keeping, send_message-Keeps) depth 30 fits 5000

    md5_password-Keeps : (body : Bytes) → Keeps (IsCoherent T) (md5_password F body)
    unfolding md5_password
    md5_password-Keeps body = search (keeping, send_message-Keeps) depth 30 fits 5000

    sasl_init-Keeps : (body : Bytes) → Keeps (IsCoherent T) (sasl_init F body)
    unfolding sasl_init
    sasl_init-Keeps body = search (keeping, write-Keeps, store_auth-Keeps) depth 40 fits 5000

    sasl_continue-Keeps : (body : Bytes) → Keeps (IsCoherent T) (sasl_continue F body)
    unfolding sasl_continue
    sasl_continue-Keeps body = search (keeping, write-Keeps, store_auth-Keeps) depth 40 fits 5000

    sasl_final-Keeps : (body : Bytes) → Keeps (IsCoherent T) (sasl_final F body)
    unfolding sasl_final
    sasl_final-Keeps body = search keeping depth 30 fits 5000

    idp_token-Keeps : Keeps (IsCoherent T) (idp_token F)
    unfolding idp_token
    idp_token-Keeps = search (keeping, write-Keeps) depth 30 fits 5000

    digest-Keeps : (body : Bytes) → Keeps (IsCoherent T) (digest F body)
    unfolding digest
    digest-Keeps body = search (keeping, write-Keeps) depth 60 fits 5000

    authenticate-Keeps : (code : ℤ) (body : Bytes) → Keeps (IsCoherent T) (authenticate F code body)
    unfolding authenticate
    authenticate-Keeps (negsuc n) body = search keeping
    authenticate-Keeps (pos code) body =
        search
          (
            keeping, cleartext-Keeps, md5_password-Keeps, sasl_init-Keeps, sasl_continue-Keeps,
            sasl_final-Keeps, idp_token-Keeps, digest-Keeps,
          )
          depth 30 fits 5000

    pub handle_authentication_request-Keeps :
        (body : Bytes) → Keeps (IsCoherent T) (handle_authentication_request F body)
    unfolding handle_authentication_request
    handle_authentication_request-Keeps body = search (keeping, authenticate-Keeps) depth 30
