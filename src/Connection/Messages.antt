-- ===== src/Connection/Messages.antt =====
-- redshift_connector/core.py: `handle_COMMAND_COMPLETE`, `close_prepared_statement`,
-- `handle_messages` and `handle_messages_merge_socket_read`, over the bytes that the server sends.
-- CommandComplete may close prepared statements and then reads messages itself: the loop is passed
-- to it. The fuel bounds the messages read and the nesting; each message takes five bytes at least.
pub mod Stream
pub mod Merge
pub mod Kept
use amazon_redshift_python_d.Prelude.{
  update_at, ℕ, zero, suc, ◌+◌, ◌-◌, Bool, true, false, not, ◌&&◌, ◌||◌, Option, none, some, List,
  [], ◌∷◌, ◌++◌, ltb, ◌==◌, if◌then◌else◌, length, take, drop, get_elem?, set, map,
}
use amazon_redshift_python_d.Prelude.Int.{ℤ, pos, negsuc, ◌+ℤ◌, sub_ℕ}
use amazon_redshift_python_d.Prelude.Result.{
  Exception, Result, ok, err, key_error, value_error, stuck,
}
use amazon_redshift_python_d.Prelude.Action.{Action, pure, raise, lift, self, modify, ◌>>=◌, ◌>>◌}
use amazon_redshift_python_d.Prelude.Text.{
  Bytes, Text, codes, text_eq, in_texts, drop_last, take_last, split, int,
}
use amazon_redshift_python_d.Connection.{
  Connection, Cursor, Cache, Caches, PreparedStatement, Handler, Foreign,
}
use amazon_redshift_python_d.Connection.Sending
use amazon_redshift_python_d.Connection.Sending.{write, send_message}
use amazon_redshift_python_d.Connection.Auth.{handle_authentication_request}
use amazon_redshift_python_d.Connection.Status.{
  handle_error_response, handle_empty_query_response, handle_close_complete, handle_parse_complete,
  handle_bind_complete, handle_portal_suspended, handle_parameter_description, handle_no_data,
  handle_copy_done, handle_ready_for_query, handle_backend_key_data, handle_notice_response,
  handle_notification_response, handle_parameter_status,
}
use amazon_redshift_python_d.Connection.Rows.{handle_row_description, handle_data_row}
use amazon_redshift_python_d.Connection.Copy.{
  handle_copy_out_response, handle_copy_data, handle_copy_in_response,
}
use amazon_redshift_python_d.Types.Args.{Param}
use amazon_redshift_python_d.Wire.{ci_unpack}

-- The connection and the bytes that the server has sent and the driver has not read.
pub record World : Type 0 where
  pub conn : Connection
  pub input : Bytes

abbrev pub Step : Type 0
Step = Action World (Unit {0})

-- A handler leaves the input alone.
abbrev pub locally : {A : Type 0} → Action Connection A → Action World A
locally m w = let (r, c) = m w.conn in (r, record w { conn = c })

-- self._read(n): short at the end of the input; all of it for -1.
unfoldable pub read : ℤ → Action World Bytes
read (pos n) w = (ok (take n w.input), record w { input = drop n w.input })
read (negsuc zero) w = (ok w.input, record w { input = [] })
read (negsuc (suc n)) w = (err value_error, w)

abbrev pub minus_four : ℤ → ℤ
minus_four (pos n) = sub_ℕ n 4
minus_four (negsuc n) = negsuc (n + 4)

-- `(data_len - 4) + 5`
abbrev pub plus_one : ℤ → ℤ
plus_one (pos n) = pos (n + 1)
plus_one (negsuc zero) = pos 0
plus_one (negsuc (suc n)) = negsuc n

-- CommandComplete: the tag's words.
unfoldable pub tag : Bytes → List Bytes
unfolding split
tag body = split b' ' (drop_last 1 body)

abbrev pub first_word : List Bytes → Bytes
first_word [] = []
first_word (w ∷ ws) = w

unfoldable pub last_word : List Bytes → Bytes
last_word [] = []
last_word (w ∷ []) = w
last_word (w ∷ x ∷ ws) = last_word (x ∷ ws)

abbrev pub on_cursor : ℕ → (Cursor → Cursor) → Connection → Connection
on_cursor cid f c = record c { cursors = update_at cid f c.cursors }

unset : ℤ → Bool
unset (pos n) = false
unset (negsuc n) = n == 0

-- _row_count and _redshift_row_count after a command of `n` rows.
unfoldable pub add_rows : ℤ → Cursor → Cursor
unfolding unset
add_rows n cur =
    let total = if unset cur.row_count then n else cur.row_count +ℤ n in
    record cur { row_count = total; redshift_row_count = total }

unfoldable pub count_selected : Cursor → Cursor
count_selected cur = record cur { redshift_row_count = pos (length cur.cached_rows) }

unfoldable pub count_rows : ℕ → List Bytes → Handler
unfolding add_rows count_selected in_texts last_word
count_rows cid words = do
  c ← self
  if in_texts (first_word words) c.commands_with_count
      then (do n ← lift (int (last_word words)); modify (on_cursor cid (add_rows n)))
      else if text_eq (first_word words) (codes "SELECT")
      then modify (on_cursor cid count_selected)
      else pure tt

unfoldable pub drops_statements : List Bytes → Bool
unfolding text_eq
drops_statements words =
    text_eq (first_word words) (codes "ALTER") || text_eq (first_word words) (codes "CREATE")

-- The statements of one cache, and one cache without them.
unfoldable pub statement_ids : Cache → List ℕ
statement_ids k = map (λ (e : (Text × List Param) × ℕ). e.1) k.ps

name_of : ℕ → Connection → Bytes
name_of s c = elim (get_elem? c.statements s) [ none ↦ [] | some ps ↦ ps.statement_name_bin ]

-- pcache["ps"].clear() of the `j`-th cache of the `i`-th style
unfoldable pub clear_at : ℕ → List (ℕ × Cache) → List (ℕ × Cache)
clear_at j [] = []
clear_at zero ((pid, k) ∷ rest) = (pid, record k { ps = [] }) ∷ rest
clear_at (suc j) (p ∷ rest) = p ∷ clear_at j rest

unfoldable pub clear_caches : ℕ → ℕ → Caches → Caches
unfolding clear_at
clear_caches i j [] = []
clear_caches zero j ((style, pids) ∷ rest) = (style, clear_at j pids) ∷ rest
clear_caches (suc i) j (s ∷ rest) = s ∷ clear_caches i j rest

-- close_prepared_statement, given `handle_messages(self._cursor)`; cursor 0 is `self._cursor`.
unfoldable pub close_prepared_statement : Step → Bytes → Step
unfolding send_message write
close_prepared_statement nested name = do
  locally (send_message b'C' (b'S' ∷ name))
  locally (write Sending.sync_msg)
  nested

pub close_all : Step → List ℕ → Step
unfolding close_prepared_statement name_of
close_all nested [] = pure tt
close_all nested (s ∷ ss) = do
  w ← self
  close_prepared_statement nested (name_of s w.conn)
  close_all nested ss

clear_one : ℕ → ℕ → Handler
unfolding clear_caches clear_at
clear_one i j = modify (λ c. record c { caches = clear_caches i j c.caches })

-- The caches as they were when the iteration began; Python raises RuntimeError where the answer to a Close
-- clears the dict that is iterated.
close_pids : Step → ℕ → ℕ → List (ℕ × Cache) → Step
unfolding close_all clear_one statement_ids
close_pids nested i j [] = pure tt
close_pids nested i j ((pid, k) ∷ rest) = do
  close_all nested (statement_ids k)
  locally (clear_one i j)
  close_pids nested i (suc j) rest

close_styles : Step → ℕ → Caches → Step
unfolding close_pids
close_styles nested i [] = pure tt
close_styles nested i ((style, pids) ∷ rest) = do
  close_pids nested i 0 pids
  close_styles nested (suc i) rest

unfoldable pub handle_command_complete : Step → ℕ → Bytes → Step
unfolding count_rows tag drops_statements close_styles
handle_command_complete nested cid body = do
  locally (count_rows cid (tag body))
  w ← self
  if drops_statements (tag body) then close_styles nested 0 w.conn.caches else pure tt

unfoldable pub clear_error : Handler
clear_error = modify (λ c. record c { error = none })

to_raise : Option Exception → Result (Unit {0})
to_raise none = ok tt
to_raise (some e) = err e

unfoldable pub raise_error : Handler
unfolding to_raise
raise_error = do c ← self; lift (to_raise c.error)

-- `self.error = None`, a loop, and `if self.error is not None: raise self.error`.
unfoldable pub around : Step → Step
unfolding clear_error raise_error
around loop = do locally clear_error; loop; locally raise_error

-- The codes of self.message_types, and the lookup of one, which comes before the body is read.
unfoldable pub is_message_type : ℕ → Bool
is_message_type code =
    code == Sending.command_complete
    || (code == Sending.notice_response
        || (code == Sending.authentication_request
            || (code == Sending.parameter_status
                || (code == Sending.backend_key_data
                    || (code == Sending.ready_for_query
                        || (code == Sending.row_description
                            || (code == Sending.error_response
                                || (code == Sending.empty_query_response
                                    || (code == Sending.data_row
                                        || (code == Sending.parse_complete
                                            || (code == Sending.bind_complete
                                                || (code == Sending.close_complete
                                                    || (code == Sending.portal_suspended
                                                        || (code == Sending.no_data
                                                            || (code
                                                            == Sending.parameter_description
                                                            || (code
                                                            == Sending.notification_response
                                                            || (code == Sending.copy_done
                                                            || (code == Sending.copy_data
                                                            || (code == Sending.copy_in_response
                                                            || (code
                                                            == Sending.copy_out_response))))))))))))))))))))

unfoldable pub message_type : ℕ → Result (Unit {0})
message_type code = if is_message_type code then ok tt else err key_error

module _ (F : Foreign) where
  -- self.message_types but for CommandComplete: the handlers that stay off the socket's input.
  unfoldable pub local_handler : ℕ → ℕ → Bytes → Handler
  local_handler code cid body =
      if code == Sending.notice_response
      then handle_notice_response body
      else if code == Sending.authentication_request
      then handle_authentication_request F body
      else if code == Sending.parameter_status
      then handle_parameter_status body
      else if code == Sending.backend_key_data
      then handle_backend_key_data body
      else if code == Sending.ready_for_query
      then handle_ready_for_query body
      else if code == Sending.row_description
      then handle_row_description cid body
      else if code == Sending.error_response
      then handle_error_response body
      else if code == Sending.empty_query_response
      then handle_empty_query_response body
      else if code == Sending.data_row
      then handle_data_row F cid body
      else if code == Sending.parse_complete
      then handle_parse_complete body
      else if code == Sending.bind_complete
      then handle_bind_complete body
      else if code == Sending.close_complete
      then handle_close_complete body
      else if code == Sending.portal_suspended
      then handle_portal_suspended body
      else if code == Sending.no_data
      then handle_no_data body
      else if code == Sending.parameter_description
      then handle_parameter_description body
      else if code == Sending.notification_response
      then handle_notification_response body
      else if code == Sending.copy_done
      then handle_copy_done body
      else if code == Sending.copy_data
      then handle_copy_data cid body
      else if code == Sending.copy_in_response
      then handle_copy_in_response cid body
      else if code == Sending.copy_out_response
      then handle_copy_out_response cid body
      else raise key_error

  -- self.message_types[code](body, cursor)
  unfoldable pub dispatch : Step → ℕ → ℕ → Bytes → Step
  dispatch nested code cid body =
      if code == Sending.command_complete
      then handle_command_complete nested cid body
      else locally (local_handler code cid body)

  -- `while code != READY_FOR_QUERY`
  unfoldable pub read_loop : ℕ → ℕ → Step
  unfolding around
  read_loop zero cid w = (err stuck, w)
  read_loop (suc fuel) cid w =
      (do
        head ← read (pos 5)
        (code, len) ← lift (ci_unpack head)
        lift (message_type code)
        body ← read (minus_four len)
        dispatch (λ v. around (λ u. read_loop fuel 0 u) v) code cid body
        λ v. elim (code == Sending.ready_for_query) [
          | true ↦ (ok tt, v)
          | false ↦ read_loop fuel cid v
        ])
        w

  unfoldable pub handle_messages : ℕ → ℕ → Step
  unfolding read_loop
  handle_messages fuel cid = around (λ w. read_loop fuel cid w)

  -- `while True`, from the header of a message.
  unfoldable pub merge_loop : ℕ → ℕ → ℕ → ℤ → Step
  unfolding handle_messages
  merge_loop zero cid code len w = (err stuck, w)
  merge_loop (suc fuel) cid code len w = elim (code == Sending.ready_for_query) [
    | true ↦ (do body ← read (minus_four len); dispatch (handle_messages fuel 0) code cid body) w
    | false ↦
        (do
          chunk ← read (plus_one len)
          dispatch (handle_messages fuel 0) code cid (drop_last 5 chunk)
          (code', len') ← lift (ci_unpack (take_last 5 chunk))
          λ v. merge_loop fuel cid code' len' v)
          w
  ]

  merge_start : ℕ → ℕ → Step
  unfolding merge_loop
  merge_start fuel cid = do
    head ← read (pos 5)
    (code, len) ← lift (ci_unpack head)
    λ w. merge_loop fuel cid code len w

  unfoldable pub handle_messages_merge_socket_read : ℕ → ℕ → Step
  unfolding merge_start around
  handle_messages_merge_socket_read fuel cid = around (merge_start fuel cid)
