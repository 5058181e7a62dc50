-- ===== src/Session/Startup/Connect.antt =====
-- redshift_connector/core.py, `Connection.__init__` as a whole, on a socket with the bytes that the server will
-- send. TLS and the socket itself are not modelled.
use amazon_redshift_python_d.Prelude.{ℕ, Option, none, some}
use amazon_redshift_python_d.Prelude.Result.{Result, ok, err, ◌>>=◌, interface_error}
use amazon_redshift_python_d.Prelude.Text.{Bytes}
use amazon_redshift_python_d.Prelude.Text.Utf8.{encode}
use amazon_redshift_python_d.Connection.{Foreign}
use amazon_redshift_python_d.Connection.Messages.{World}
use amazon_redshift_python_d.Session.Startup.{new_connection, start_up}
use amazon_redshift_python_d.Session.Startup.Params.{
  Options, InitValue, Password, no_password, str_password, bytes_password, absent, init_params,
  encode_params, startup_message, user_of,
}

pub user_given : InitValue → Result (Unit {0})
user_given absent = err (interface_error "The 'user' connection parameter cannot be None")
user_given v = ok tt

pub password_of : Password → Result (Option Bytes)
password_of no_password = ok none
password_of (str_password t) = do bs ← encode t; ok (some bs)
password_of (bytes_password bs) = ok (some bs)

-- The world behind a constructor that returned.
unfoldable pub started : Result (Unit {0}) × World → Result World
started (ok t, w) = ok w
started (err e, w) = err e

module _ (F : Foreign) where
  unfoldable pub connect : ℕ → Options → Bytes → Result World
  unfolding user_given password_of started
  connect fuel o input = do
    given ← user_given o.user
    params ← encode_params (init_params o)
    password ← password_of o.password
    message ← startup_message params
    started (
        start_up F fuel message
          (record { conn = new_connection o (user_of params) password; input = input }))
