-- ===== src/Connection/Sending/Kept.antt =====
-- What is written to the socket changes nothing but the output.
use amazon_redshift_python_d.Prelude.{ℕ}
use amazon_redshift_python_d.Prelude.Keeps.{
  Keeps, bind-Keeps, raise-Keeps, self-Keeps, if-Keeps, modify-Keeps, keeping,
}
use amazon_redshift_python_d.Prelude.Text.{Bytes}
use amazon_redshift_python_d.Connection.Coherent.{IsCoherent, Tracked}
use amazon_redshift_python_d.Connection.Sending.{write, send_message}

module _ (T : Tracked) where
  pub write-Keeps : (bs : Bytes) → Keeps (IsCoherent T) (write bs)
  unfolding write IsCoherent
  write-Keeps bs =
      bind-Keeps self-Keeps (λ c. if-Keeps c.closed (raise-Keeps _) (modify-Keeps (λ d h. h)))

  pub send_message-Keeps : (code : ℕ) (body : Bytes) → Keeps (IsCoherent T) (send_message code body)
  unfolding send_message
  send_message-Keeps code body = search (keeping, write-Keeps) depth 30 fits 5000
