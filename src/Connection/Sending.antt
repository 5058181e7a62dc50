-- ===== src/Connection/Sending.antt =====
-- redshift_connector/core.py: the message codes, what the driver writes to the socket, and the
-- commands it sends (`_send_message`, `send_EXECUTE`).
pub mod Kept
use amazon_redshift_python_d.Prelude.{ℕ, ◌+◌, [], ◌∷◌, ◌++◌, if◌then◌else◌, length}
use amazon_redshift_python_d.Prelude.Int.{pos}
use amazon_redshift_python_d.Prelude.Result.{ok, err, interface_error, value_error}
use amazon_redshift_python_d.Prelude.Action.{self, modify, raise, lift, ◌>>=◌, ◌>>◌}
use amazon_redshift_python_d.Prelude.Text.{Bytes}
use amazon_redshift_python_d.Connection.{Handler}
use amazon_redshift_python_d.Wire.{i, pack}

-- Codes of the server's messages.
abbrev pub notice_response : ℕ
notice_response = b'N'

abbrev pub authentication_request : ℕ
authentication_request = b'R'

abbrev pub parameter_status : ℕ
parameter_status = b'S'

abbrev pub backend_key_data : ℕ
backend_key_data = b'K'

abbrev pub ready_for_query : ℕ
ready_for_query = b'Z'

abbrev pub row_description : ℕ
row_description = b'T'

abbrev pub error_response : ℕ
error_response = b'E'

abbrev pub data_row : ℕ
data_row = b'D'

abbrev pub command_complete : ℕ
command_complete = b'C'

abbrev pub parse_complete : ℕ
parse_complete = b'1'

abbrev pub bind_complete : ℕ
bind_complete = b'2'

abbrev pub close_complete : ℕ
close_complete = b'3'

abbrev pub portal_suspended : ℕ
portal_suspended = b's'

abbrev pub no_data : ℕ
no_data = b'n'

abbrev pub parameter_description : ℕ
parameter_description = b't'

abbrev pub notification_response : ℕ
notification_response = b'A'

abbrev pub copy_done : ℕ
copy_done = b'c'

abbrev pub copy_data : ℕ
copy_data = b'd'

abbrev pub copy_in_response : ℕ
copy_in_response = b'G'

abbrev pub copy_out_response : ℕ
copy_out_response = b'H'

abbrev pub empty_query_response : ℕ
empty_query_response = b'I'

-- FLUSH_MSG, SYNC_MSG, COPY_DONE_MSG and EXECUTE_MSG, as create_message builds them.
abbrev pub flush_msg : Bytes
flush_msg = b'H' ∷ 0 ∷ 0 ∷ 0 ∷ 4 ∷ []

abbrev pub sync_msg : Bytes
sync_msg = b'S' ∷ 0 ∷ 0 ∷ 0 ∷ 4 ∷ []

abbrev pub copy_done_msg : Bytes
copy_done_msg = b'c' ∷ 0 ∷ 0 ∷ 0 ∷ 4 ∷ []

abbrev pub execute_msg : Bytes
execute_msg = b'E' ∷ 0 ∷ 0 ∷ 0 ∷ 9 ∷ 0 ∷ 0 ∷ 0 ∷ 0 ∷ 0 ∷ []

-- self._write, on a file that `close` has closed and on an open one.
unfoldable pub write : Bytes → Handler
write bs = do
  c ← self
  if c.closed then raise value_error else modify (λ d. record d { output = d.output ++ bs })

-- _send_message: a write to a closed file becomes InterfaceError.
unfoldable pub send_message : ℕ → Bytes → Handler
unfolding write
send_message code body = do
  c ← self
  if c.closed then raise (interface_error "connection is closed") else do
    write (code ∷ [])
    len ← lift (pack i (pos (length body + 4)))
    write len
    write body
    write flush_msg

unfoldable pub send_execute : Handler
unfolding write
send_execute = do write execute_msg; write flush_msg
