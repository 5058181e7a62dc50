-- ===== src/Connection/Status.antt =====
-- redshift_connector/core.py: the handlers that keep what the server reports (ErrorResponse,
-- EmptyQueryResponse, NoticeResponse, NotificationResponse, ParameterStatus, ReadyForQuery,
-- BackendKeyData, CopyDone), and those that do nothing.
pub mod Version
pub mod Kept
use mathlib.Core.List.{map}
use amazon_redshift_python_d.Prelude.{
  ℕ, suc, ◌+◌, ◌-◌, Bool, true, false, not, Option, none, some, List, [], ◌∷◌, ◌++◌, ◌==◌,
  if◌then◌else◌, take, drop, length,
}
use amazon_redshift_python_d.Prelude.Action.{pure, modify, with_self, with_result, then_do}
use amazon_redshift_python_d.Prelude.Int.{ℤ, pos, negsuc, ltb_ℤ}
use amazon_redshift_python_d.Prelude.Result.{
  Exception, Result, ok, err, key_error, programming_error, server_error, ErrorClass, interface,
  integrity, programming, ◌>>=◌,
}
use amazon_redshift_python_d.Prelude.Text.{
  Bytes, Text, codes, text_eq, slice, drop_last, split, find, find_from, int, lower, push_bounded,
}
use amazon_redshift_python_d.Prelude.Text.Utf8.{decode, decode_ascii}
use amazon_redshift_python_d.Prelude.Dict.{dict_get, dict_of}
use amazon_redshift_python_d.Connection.{Connection, Handler}
use amazon_redshift_python_d.Connection.Status.Version.{loose_version, version_parts, version_lt}
use amazon_redshift_python_d.Types.Protocol.{enable_protocol}
use amazon_redshift_python_d.Wire.{i, unpack}

-- The pieces of a message body that are not empty, and each as its code and its text.
unfoldable pub non_empty : List Bytes → List Bytes
non_empty [] = []
non_empty ([] ∷ ps) = non_empty ps
non_empty ((b ∷ bs) ∷ ps) = (b ∷ bs) ∷ non_empty ps

decode_field : Bytes → Result (Text × Text)
decode_field p = do k ← decode (take 1 p); v ← decode (drop 1 p); ok (k, v)

unfoldable pub decode_fields : List Bytes → Result (List (Text × Text))
unfolding decode_field
decode_fields [] = ok []
decode_fields (p ∷ ps) = do f ← decode_field p; fs ← decode_fields ps; ok (f ∷ fs)

unfoldable pub error_class : Text → ErrorClass
error_class code =
    if text_eq code (codes "28000")
    then interface
    else if text_eq code (codes "23505")
    then integrity
    else programming

response_error : List (Text × Text) → Option Text → Result Exception
response_error msg none = err key_error
response_error msg (some code) = ok (server_error (error_class code) msg)

-- The exception that an ErrorResponse body stands for.
unfoldable pub error_of : Bytes → Result Exception
unfolding non_empty decode_fields response_error error_class dict_get dict_of
error_of body = do
  fields ← decode_fields (non_empty (split 0 body))
  let msg = dict_of [] fields
  response_error msg (dict_get (codes "C") msg)

-- A handler that fails or stores what it computed.
store : {A : Type 0} → Result A → (A → Connection → Connection) → Handler
store r f = with_result r (λ a. modify (f a))

unfoldable pub handle_error_response : Bytes → Handler
unfolding store error_of
handle_error_response body = store (error_of body) (λ e c. record c { error = some e })

unfoldable pub handle_empty_query_response : Bytes → Handler
handle_empty_query_response body =
    modify (λ c. record c { error = some (programming_error "query was empty") })

-- The handlers that are no-ops.
unfoldable pub handle_close_complete : Bytes → Handler
handle_close_complete body = pure tt

unfoldable pub handle_parse_complete : Bytes → Handler
handle_parse_complete body = pure tt

unfoldable pub handle_bind_complete : Bytes → Handler
handle_bind_complete body = pure tt

unfoldable pub handle_portal_suspended : Bytes → Handler
handle_portal_suspended body = pure tt

unfoldable pub handle_parameter_description : Bytes → Handler
handle_parameter_description body = pure tt

unfoldable pub handle_no_data : Bytes → Handler
handle_no_data body = pure tt

unfoldable pub handle_copy_done : Bytes → Handler
handle_copy_done body = modify (λ c. record c { copy_done = true })

unfoldable pub handle_ready_for_query : Bytes → Handler
unfolding text_eq
handle_ready_for_query body =
    modify (λ c. record c { in_transaction = not (text_eq body (b'I' ∷ [])) })

unfoldable pub handle_backend_key_data : Bytes → Handler
handle_backend_key_data body = modify (λ c. record c { backend_key_data = some body })

-- The dict of a notice: keys and values as bytes.
unfoldable pub notice_of : Bytes → List (Bytes × Bytes)
unfolding dict_of
notice_of body = dict_of [] (map (λ p. (take 1 p, drop 1 p)) (split 0 body))

unfoldable pub handle_notice_response : Bytes → Handler
unfolding notice_of push_bounded
handle_notice_response body =
    modify (λ c. record c { notices = push_bounded 100 c.notices (notice_of body) })

-- `data[idx : idx + null]` with `null` the distance to the next zero byte, or -1 - idx without one.
text_to_null : Bytes → ℕ → Option ℕ → Bytes
text_to_null body idx (some k) = slice body idx k
text_to_null body idx none = slice body idx (length body - 1)

unfoldable pub notification_of : Bytes → Result (ℤ × Text)
unfolding text_to_null find_from
notification_of body = do
  backend_pid ← unpack i body 0
  condition ← decode_ascii (text_to_null body 4 (find_from 0 body 4))
  ok (backend_pid, condition)

unfoldable pub handle_notification_response : Bytes → Handler
unfolding store notification_of push_bounded
handle_notification_response body =
    store (notification_of body)
      (λ n c. record c { notifications = push_bounded 100 c.notifications n })

-- The key and the value of a ParameterStatus; `find` gives -1 where there is no zero byte.
key_value_at : Bytes → Option ℕ → Bytes × Bytes
key_value_at body (some k) = (take k body, drop_last 1 (drop (suc k) body))
key_value_at body none = (drop_last 1 body, drop_last 1 body)

unfoldable pub key_value : Bytes → Bytes × Bytes
unfolding key_value_at find
key_value body = key_value_at body (find 0 body)

-- _client_protocol_version and the conversions that depend on it.
unfoldable pub set_protocol : ℤ → Connection → Connection
set_protocol v c = record c {
  client_protocol_version = v;
  pg_types = enable_protocol v c.numeric_to_float c.pg_types;
}

abbrev same_ℤ : ℤ → ℤ → Bool
same_ℤ a b = if ltb_ℤ a b then false else if ltb_ℤ b a then false else true

follow_protocol : ℤ → Connection → Connection
unfolding set_protocol
follow_protocol v c = if same_ℤ c.client_protocol_version v then c else set_protocol v c

abbrev pub counted_before_8_2 : List Bytes
counted_before_8_2 = codes "INSERT" ∷ codes "DELETE" ∷ codes "UPDATE" ∷ codes "MOVE" ∷ []

abbrev pub counted_before_9_0 : List Bytes
counted_before_9_0 =
    codes "INSERT"
    ∷ codes "DELETE"
    ∷ codes "UPDATE"
    ∷ codes "MOVE"
    ∷ codes "FETCH"
    ∷ codes "COPY"
    ∷ []

-- The commands that the version of the server counts rows for.
unfoldable pub commands_of_version : Bytes → List Bytes → Result (List Bytes)
unfolding loose_version version_parts version_lt
commands_of_version value commands = do
  text ← decode_ascii value
  version ← version_parts text
  old ← version_lt version (loose_version (codes "8.2.0"))
  older ← (if old then ok true else version_lt version (loose_version (codes "9.0.0")))
  ok (if old then counted_before_8_2 else if older then counted_before_9_0 else commands)

status_value : Bytes → Bytes → Handler
unfolding store follow_protocol commands_of_version
status_value key value =
    if text_eq key (codes "client_encoding")
    then store (decode_ascii value) (λ t c. c)
    else if text_eq key (codes "server_protocol_version")
    then store (int value) follow_protocol
    else if text_eq key (codes "server_version")
    then with_self (λ c.
      store (commands_of_version value c.commands_with_count)
        (λ commands d. record d { commands_with_count = commands }))
    else pure tt

unfoldable pub handle_parameter_status : Bytes → Handler
unfolding key_value push_bounded status_value
handle_parameter_status body =
    then_do
      (modify (λ c. record c {
        parameter_statuses = push_bounded 100 c.parameter_statuses (key_value body);
      }))
      (status_value (key_value body).0 (key_value body).1)
