-- ===== src/Session/Startup.antt =====
-- redshift_connector/core.py, `Connection.__init__`: the new object, the loop over the server's answer to the
-- start-up message and the protocol version that is left. The socket is given, with its input.
pub mod Params
pub mod Connect
pub mod Kept
pub mod Reported
use amazon_redshift_python_d.Prelude.{
  ℕ, zero, suc, Bool, true, false, not, ◌&&◌, ◌||◌, Option, none, some, List, [], ◌∷◌, ◌==◌,
  if◌then◌else◌, length,
}
use amazon_redshift_python_d.Prelude.Int.{ℤ, pos, negsuc, ltb_ℤ}
use amazon_redshift_python_d.Prelude.Result.{
  Result, ok, err, interface_error, attribute_error, stuck,
}
use amazon_redshift_python_d.Prelude.Action.{Action, pure, raise, lift, self, modify, ◌>>=◌, ◌>>◌}
use amazon_redshift_python_d.Prelude.Text.{Bytes, Text, text_eq, in_texts, codes, str_int, int}
use amazon_redshift_python_d.Paramstyle.{Style, named}
use amazon_redshift_python_d.Types.{pg_types}
use amazon_redshift_python_d.Types.Protocol.{base_server, enable_protocol}
use amazon_redshift_python_d.Connection.{Connection, Handler, Foreign}
use amazon_redshift_python_d.Connection.Sending
use amazon_redshift_python_d.Connection.Sending.{write}
use amazon_redshift_python_d.Connection.Status.{set_protocol}
use amazon_redshift_python_d.Connection.Messages.{
  World, Step, read, minus_four, message_type, locally, raise_error, local_handler, tag, first_word,
  last_word, drops_statements,
}
use amazon_redshift_python_d.Wire.{ci_unpack}
use amazon_redshift_python_d.Session.{new_cursor}
use amazon_redshift_python_d.Session.Startup.Params.{
  Options, InitValue, absent, init_params, encode_params, startup_message, user_of,
}

-- The attributes at the time of the start-up message.
unfoldable pub new_connection : Options → Bytes → Option Bytes → Connection
new_connection o user password = record {
  output = [];
  closed = false;
  cursors = new_cursor o.paramstyle ∷ new_cursor named ∷ [];
  statements = [];
  caches = [];
  max_prepared_statements = o.max_prepared_statements;
  error = none;
  notices = [];
  notifications = [];
  parameter_statuses = [];
  commands_with_count =
      codes "INSERT"
      ∷ codes "DELETE"
      ∷ codes "UPDATE"
      ∷ codes "MOVE"
      ∷ codes "FETCH"
      ∷ codes "COPY"
      ∷ codes "SELECT"
      ∷ [];
  client_protocol_version = o.client_protocol_version;
  numeric_to_float = o.numeric_to_float;
  pg_types = enable_protocol o.client_protocol_version o.numeric_to_float pg_types;
  backend_key_data = none;
  copy_done = false;
  in_transaction = false;
  autocommit = false;
  merge_socket_read = true;
  user = user;
  password = password;
  web_identity_token = o.web_identity_token;
  auth = none;
  xid = none;
}

-- CommandComplete without a cursor: its counts have no place, and no statement is cached yet.
unfoldable pub startup_complete : Bytes → Handler
unfolding last_word in_texts text_eq
startup_complete body = do
  c ← self
  if in_texts (first_word (tag body)) c.commands_with_count
      then (do n ← lift (int (last_word (tag body))); raise attribute_error)
      else if text_eq (first_word (tag body)) (codes "SELECT")
      then raise attribute_error
      else pure tt

-- (b"server_protocol_version", str(version).encode()) in parameter_statuses
unfoldable pub has_status : Bytes → Bytes → List (Bytes × Bytes) → Bool
unfolding text_eq
has_status k v [] = false
has_status k v ((j, u) ∷ rest) = (text_eq j k && text_eq u v) || has_status k v rest

unfoldable pub settle_protocol : Connection → Connection
settle_protocol c =
    if ltb_ℤ base_server c.client_protocol_version
      && not (
          has_status (codes "server_protocol_version") (str_int c.client_protocol_version)
            c.parameter_statuses)
    then set_protocol base_server c
    else c

module _ (F : Foreign) where
  -- The handlers with None for the cursor. The COPY handlers find no stream at a cursor that is not
  -- there, as on None.
  unfoldable pub startup_handler : ℕ → Bytes → Handler
  unfolding startup_complete
  startup_handler code body = do
    c ← self
    if code == Sending.command_complete
        then startup_complete body
        else if code == Sending.row_description || code == Sending.data_row
        then raise attribute_error
        else local_handler F code (length c.cursors) body

  -- `while code not in (READY_FOR_QUERY, ERROR_RESPONSE)`
  unfoldable pub startup_loop : ℕ → Step
  startup_loop zero w = (err stuck, w)
  startup_loop (suc fuel) w =
      (do
        head ← read (pos 5)
        (code, len) ← lift (ci_unpack head)
        lift (message_type code)
        body ← read (minus_four len)
        locally (startup_handler code body)
        λ v. elim (code == Sending.ready_for_query || code == Sending.error_response) [
          | true ↦ (ok tt, v)
          | false ↦ startup_loop fuel v
        ])
        w

  -- From the start-up message on.
  unfoldable pub start_up : ℕ → Bytes → Step
  start_up fuel message = do
    locally (write message)
    startup_loop fuel
    locally raise_error
    locally (modify settle_protocol)
    locally (modify (λ c. record c { in_transaction = false }))
