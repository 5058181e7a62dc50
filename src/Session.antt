-- ===== src/Session.antt =====
-- redshift_connector/cursor.py, `execute`, `executemany`, `callproc` and `close` of a cursor, and
-- redshift_connector/core.py, `commit`, `rollback`, `run`, `cursor` and `close` of a connection. Cursor 0 is
-- `self._cursor` and cursor 1 `self._run_cursor`.
pub mod Tpc
pub mod Bulk
pub mod Startup
pub mod Invariant
pub mod Reachable
pub mod Closing
pub mod Sanitized
use amazon_redshift_python_d.Prelude.{
  update_at, ℕ, zero, suc, ◌+◌, Bool, true, false, not, ◌&&◌, ◌||◌, Option, none, some, List, [],
  ◌∷◌, ◌++◌, ◌==◌, if◌then◌else◌, length, get_elem?, set,
}
use amazon_redshift_python_d.Prelude.Int.{ℤ, pos, negsuc, ◌+ℤ◌}
use amazon_redshift_python_d.Prelude.Result.{
  Exception, Result, ok, err, interface_error, attribute_error, value_error,
}
use amazon_redshift_python_d.Prelude.Action.{
  Action, pure, raise, lift, self, modify, finally_do, except_do, handle_error, ◌>>=◌, ◌>>◌,
}
use amazon_redshift_python_d.Prelude.Text.{Bytes, Text, codes}
use amazon_redshift_python_d.Paramstyle.{Style, format, convert_paramstyle}
use amazon_redshift_python_d.Types.{Value}
use amazon_redshift_python_d.Types.Args.{PyValue}
use amazon_redshift_python_d.Connection.{
  Connection, Cursor, Field, Handler, Foreign, StreamAttribute, missing, no_stream,
}
use amazon_redshift_python_d.Connection.Sending.{write}
use amazon_redshift_python_d.Connection.Execute.{execute, present}
use amazon_redshift_python_d.Connection.Execute.Requests.{
  Vals, no_vals, sequence, mapping, make_args,
}
use amazon_redshift_python_d.Connection.Messages.{World, Step, locally, on_cursor}

-- A cursor of the connection.
unfoldable pub cursor_at : ℕ → Action Connection Cursor
unfolding present
cursor_at cid = do c ← self; present (get_elem? c.cursors cid)

-- What a method of a cursor does to it.
unfoldable pub on_rows : {A : Type 0} → ℕ → Action Cursor A → Action Connection A
unfolding cursor_at
on_rows cid m = do
  cur ← cursor_at cid
  let (r, after) = m cur
  modify (on_cursor cid (λ _. after))
  lift r

-- Cursor.close
unfoldable pub close_cursor : ℕ → Handler
close_cursor cid = modify (on_cursor cid (λ cur. record cur { attached = false }))

-- Connection.cursor: Cursor(self), with the paramstyle of the module; the new cursor's number.
abbrev pub new_cursor : Style → Cursor
new_cursor paramstyle = record {
  ps = none;
  row_count = negsuc 0;
  redshift_row_count = negsuc 0;
  cached_rows = [];
  paramstyle = paramstyle;
  stream = missing;
  attached = true;
}

unfoldable pub cursor : Style → Action Connection ℕ
cursor paramstyle = do
  c ← self
  modify (λ d. record d { cursors = d.cursors ++ (new_cursor paramstyle ∷ []) })
  pure (length c.cursors)

-- TERMINATE_MSG
abbrev pub terminate_msg : Bytes
terminate_msg = b'X' ∷ 0 ∷ 0 ∷ 0 ∷ 4 ∷ []

is_attribute_error : Exception → Bool
is_attribute_error attribute_error = true
is_attribute_error e = false

is_value_error : Exception → Bool
is_value_error value_error = true
is_value_error e = false

not_open : Exception → Handler
unfolding is_attribute_error is_value_error
not_open e =
    if is_attribute_error e || is_value_error e
    then raise (interface_error "connection is closed")
    else raise e

-- Connection.close
unfoldable pub close : Handler
unfolding write not_open
close = finally_do (except_do (write terminate_msg) not_open) (λ c. record c { closed = true })

-- `re.sub(r"[-;/'\"\n\r ]", "", s)`
abbrev pub is_unsafe : ℕ → Bool
is_unsafe c =
    c == b'-'
    || (c == b';'
        || (c == b'/' || (c == b'\'' || (c == b'"' || (c == b'\n' || (c == 13 || c == b' '))))))

unfoldable pub sanitize_str : Text → Text
sanitize_str [] = []
sanitize_str (c ∷ s) = let rest = sanitize_str s in if is_unsafe c then rest else c ∷ rest

unfoldable pub escape_quotes : Text → Text
unfolding sanitize_str
escape_quotes s = b'\'' ∷ (sanitize_str s ++ (b'\'' ∷ []))

-- ", ".join(["%s"] * n)
unfoldable pub placeholders : ℕ → Text
placeholders zero = []
placeholders (suc zero) = codes "%s"
placeholders (suc (suc n)) = codes "%s, " ++ placeholders (suc n)

-- `-1 if -1 in counts else sum(summed)`
has_unknown : List ℤ → Bool
has_unknown [] = false
has_unknown (pos n ∷ ns) = has_unknown ns
has_unknown (negsuc n ∷ ns) = n == 0 || has_unknown ns

sum : List ℤ → ℤ
sum [] = pos 0
sum (n ∷ ns) = n +ℤ sum ns

unfoldable pub total : List ℤ → List ℤ → ℤ
unfolding has_unknown sum
total counts summed = if has_unknown counts then negsuc 0 else sum summed

module _ (F : Foreign) where
  begin : ℕ → ℕ → Connection → Step
  begin fuel cid c =
      if not c.in_transaction && not c.autocommit
      then execute F fuel cid (codes "begin transaction") no_vals
      else pure tt

  -- Cursor.execute(operation, args, stream, merge_socket_read)
  unfoldable pub cursor_execute : ℕ → ℕ → Text → Vals → StreamAttribute → Bool → Step
  unfolding begin cursor_at
  cursor_execute fuel cid operation args stream merge = do
    cur ← locally (cursor_at cid)
    w ← self
    if not cur.attached
        then raise (interface_error "Cursor closed")
        else if w.conn.closed
        then raise (interface_error "connection is closed")
        else (do
          locally (modify (on_cursor cid (λ c. record c { stream = stream })))
          begin fuel cid w.conn
          locally (modify (λ c. record c { merge_socket_read = merge }))
          execute F fuel cid operation args)

  -- The counts of each execution, in their order.
  execute_each : ℕ → ℕ → Text → List Vals → Action World (List ℤ × List ℤ)
  unfolding cursor_execute
  execute_each fuel cid operation [] = pure ([], [])
  execute_each fuel cid operation (args ∷ rest) = do
    cursor_execute fuel cid operation args no_stream false
    cur ← locally (cursor_at cid)
    (counts, redshift_counts) ← execute_each fuel cid operation rest
    pure (cur.row_count ∷ counts, cur.redshift_row_count ∷ redshift_counts)

  unfoldable pub executemany : ℕ → ℕ → Text → List Vals → Step
  unfolding execute_each
  executemany fuel cid operation param_sets = do
    (counts, redshift_counts) ← execute_each fuel cid operation param_sets
    locally (
        modify (
          on_cursor cid (λ cur. record cur {
            row_count = total counts counts;
            redshift_row_count = total redshift_counts counts;
          })))

  -- The handler of AttributeError in callproc.
  closed_error : ℕ → Exception → Step
  unfolding cursor_at is_attribute_error
  closed_error cid e = do
    cur ← locally (cursor_at cid)
    w ← self
    if not (is_attribute_error e)
        then raise e
        else if not cur.attached
        then raise (interface_error "Cursor closed")
        else if w.conn.closed
        then raise (interface_error "connection is closed")
        else raise e

  -- "CALL <procname>(%s, …)", converted in the style format, then executed.
  unfoldable pub call_statement : ℕ → ℕ → Text → List PyValue → Step
  call_statement fuel cid procname args = do
    (statement, args_of) ← lift (
        convert_paramstyle F.isalnum format (
          codes "CALL "
          ++ (sanitize_str procname ++ (b'(' ∷ (placeholders (length args) ++ (b')' ∷ []))))))
    vals ← lift (make_args args_of (sequence args))
    cursor_execute fuel cid statement (sequence vals) no_stream false

  unfoldable pub callproc : ℕ → ℕ → Text → List PyValue → Step
  unfolding closed_error
  callproc fuel cid procname args =
      except_do (call_statement fuel cid procname args) (closed_error cid)

  unfoldable pub commit : ℕ → Step
  commit fuel = execute F fuel 0 (codes "commit") no_vals

  unfoldable pub rollback : ℕ → Step
  rollback fuel = do
    w ← self
    if w.conn.in_transaction then execute F fuel 0 (codes "rollback") no_vals else pure tt

  -- Connection.run(sql, stream, **params), on the cursor with the style named.
  unfoldable pub run :
      ℕ → Text → StreamAttribute → List (Text × PyValue) → Action World (List (List Value))
  run fuel sql stream params = do
    cursor_execute fuel 1 sql (mapping params) stream false
    cur ← locally (cursor_at 1)
    pure cur.cached_rows
