-- ===== src/Connection/Execute/Sent.antt =====
-- What `Connection.execute` writes: Bind, Execute and Sync alone for a statement that is cached, and
-- nothing before its parameters are accepted.
use amazon_redshift_python_d.Prelude.{
  ℕ, ◌≡◌, refl, false, Option, none, some, List, ◌++◌, get_elem?,
}
use amazon_redshift_python_d.Prelude.Action.{then_do, continue, lift, modify}
use amazon_redshift_python_d.Prelude.Dict.{dict_get, dict_set}
use amazon_redshift_python_d.Prelude.Result.{Exception, Result, ok, err}
use amazon_redshift_python_d.Prelude.Text.{Bytes, Text}
use amazon_redshift_python_d.Paramstyle.{MakeArgs, Style, convert_paramstyle}
use amazon_redshift_python_d.Types.Args.{Param, PyValue}
use amazon_redshift_python_d.Types.Args.Inspect.{make_params}
use amazon_redshift_python_d.Connection.{Connection, Cursor, Foreign, PreparedStatement}
use amazon_redshift_python_d.Connection.Copy.Sent.{Wrote, then-Wrote, write-Wrote}
use amazon_redshift_python_d.Connection.Auth.Replies.{send_message-open}
use amazon_redshift_python_d.Connection.Sending.{
  execute_msg, flush_msg, send_execute, send_message, sync_msg, write,
}
use amazon_redshift_python_d.Connection.Execute.{
  cache_of, converted, execute, found_or_converted, found_or_prepared, present, ps_of, read_answer,
  reset_cursor, send_bind, set_ps, style_of, update_cache, with_caches,
}
use amazon_redshift_python_d.Connection.Execute.Requests.{Vals, bind_values, find_ps, make_args}
use amazon_redshift_python_d.Connection.Execute.Updates.{cache_of-update_cache}
use amazon_redshift_python_d.Connection.Messages.{World, on_cursor}
use amazon_redshift_python_d.Wire.{create_message}

send_message-Wrote :
    (code : ℕ) (body message : Bytes) (c : Connection)
    → create_message code body ≡ ok message
    → c.closed ≡ false
    → Wrote (send_message code body c) c.output (message ++ flush_msg)
send_message-Wrote code body message c framed opened =
    rw (send_message-open code body message c opened framed)
      (record { result = refl; output = refl; still_open = opened })

send_execute-Wrote :
    (c : Connection) → c.closed ≡ false → Wrote (send_execute c) c.output (execute_msg ++ flush_msg)
unfolding send_execute
send_execute-Wrote c opened =
    then-Wrote (write execute_msg) (write flush_msg) c c.output execute_msg flush_msg
      (write-Wrote execute_msg c opened) (λ d d_open. write-Wrote flush_msg d d_open)

-- Bind, Execute and Sync.
abbrev pub requests : Bytes → Bytes
requests message = (message ++ flush_msg) ++ ((execute_msg ++ flush_msg) ++ sync_msg)

send_bind-Wrote :
    (F : Foreign) (cid sid : ℕ) (args : List PyValue) (ps : PreparedStatement)
    (values message : Bytes) (c : Connection)
    → get_elem? c.statements sid ≡ some ps
    → bind_values F.float_micros args ps.param_funcs ≡ ok values
    → create_message b'B' (ps.bind_1 ++ (values ++ ps.bind_2)) ≡ ok message
    → c.closed ≡ false
    → Wrote (send_bind F cid sid args c) c.output (requests message)
unfolding send_bind ps_of present
send_bind-Wrote F cid sid args ps values message c at bound framed opened =
    rw (at, bound)
      (then-Wrote (send_message b'B' (ps.bind_1 ++ (values ++ ps.bind_2))) _
        (on_cursor cid reset_cursor c) c.output (message ++ flush_msg) _
        (send_message-Wrote b'B' (ps.bind_1 ++ (values ++ ps.bind_2)) message
          (on_cursor cid reset_cursor c) framed opened)
        (λ d d_open.
          then-Wrote send_execute (write sync_msg) d d.output (execute_msg ++ flush_msg) sync_msg
            (send_execute-Wrote d d_open) (λ e e_open. write-Wrote sync_msg e e_open)))

-- A statement that is cached: its conversion and `ps` are there for the cursor's paramstyle and the
-- process, and the values fit.
pub record IsCached (F : Foreign) (cid : ℕ) (operation : Text) (vals : Vals) (c : Connection)
    (message : Bytes) : Type 0 where
  pub cursor : Cursor
  pub statement : Text
  pub args_of : MakeArgs
  pub args : List PyValue
  pub params : List Param
  pub sid : ℕ
  pub ps : PreparedStatement
  pub values : Bytes
  pub on_cursor : get_elem? c.cursors cid ≡ some cursor
  pub converted :
      dict_get operation (cache_of cursor.paramstyle F.pid c.caches).statement
      ≡ some (statement, args_of)
  pub arguments : make_args args_of vals ≡ ok args
  pub parameters : make_params F.between args ≡ ok params
  pub hit : find_ps (operation, params) (cache_of cursor.paramstyle F.pid c.caches).ps ≡ some sid
  pub prepared : get_elem? c.statements sid ≡ some ps
  pub bound : bind_values F.float_micros args ps.param_funcs ≡ ok values
  pub framed : create_message b'B' (ps.bind_1 ++ (values ++ ps.bind_2)) ≡ ok message

-- The connection when Bind is sent: the cache was asked, and the cursor has the statement.
ready : Foreign → ℕ → Style → ℕ → Connection → Connection
ready F cid style sid c =
    on_cursor cid (set_ps sid) (record c { caches = update_cache style F.pid (λ k. k) c.caches })

-- On an open connection a statement that is cached is not parsed again: execute writes Bind, Execute and
-- Sync, then reads the answer.
pub execute-cached :
    (F : Foreign) (fuel cid : ℕ) (operation : Text) (vals : Vals) (message : Bytes) (w : World)
    → IsCached F cid operation vals w.conn message
    → w.conn.closed ≡ false
    → (d : Connection) × (d.output ≡ w.conn.output ++ requests message)
      × (execute F fuel cid operation vals w ≡ read_answer F fuel cid (record w { conn = d }))
unfolding execute style_of present converted found_or_converted found_or_prepared ready
execute-cached F fuel cid operation vals message w k opened =
    let style : Style = k.cursor.paramstyle in
    let wrote : Wrote (send_bind F cid k.sid k.args (ready F cid style k.sid w.conn)) w.conn.output
        (requests message) =
      send_bind-Wrote F cid k.sid k.args k.ps k.values message (ready F cid style k.sid w.conn)
        k.prepared k.bound k.framed opened in
    (
      (send_bind F cid k.sid k.args (ready F cid style k.sid w.conn)).1,
      wrote.output,
      rw
          (
            k.on_cursor,
            cache_of-update_cache (λ k. k) F.pid style w.conn.caches,
            k.converted,
            k.arguments,
            k.parameters,
            cache_of-update_cache (λ k. k) F.pid style w.conn.caches,
            k.hit,
            wrote.result,
          )
          refl,
    )

-- Asking the caches writes nothing and changes no statement and no cursor.
abbrev Unwritten : Connection → Connection → Type 0
Unwritten c d = (d.output ≡ c.output) × (d.statements ≡ c.statements) × (d.cursors ≡ c.cursors)

found_or_converted-Unwritten :
    (F : Foreign) (style : Style) (operation : Text) (found : Option (Text × MakeArgs))
    (c : Connection)
    → Unwritten c (found_or_converted F style operation found c).1
unfolding found_or_converted
found_or_converted-Unwritten F style operation (some found) c = (refl, refl, refl)
found_or_converted-Unwritten F style operation none c =
    go (convert_paramstyle F.isalnum style operation)
  where
    go :
        (r : Result (Text × MakeArgs))
        → Unwritten c
            (continue r c (λ made.
              then_do
                (modify (
                  with_caches (
                    update_cache style F.pid
                      (λ k. record k { statement = dict_set operation made k.statement }))))
                (lift (ok made)))).1
    go (ok made) = (refl, refl, refl)
    go (err e) = (refl, refl, refl)

converted-Unwritten :
    (F : Foreign) (style : Style) (operation : Text) (c : Connection)
    → Unwritten c (converted F style operation c).1
unfolding converted
converted-Unwritten F style operation c =
    found_or_converted-Unwritten F style operation _
      (record c { caches = update_cache style F.pid (λ k. k) c.caches })

-- Where make_params refuses the values, execute raises its exception before anything is written, and
-- no statement and no cursor is changed.
pub execute-refused :
    (F : Foreign) (fuel cid : ℕ) (operation : Text) (vals : Vals) (w : World) (cur : Cursor)
    (statement : Text) (args_of : MakeArgs) (args : List PyValue) (e : Exception)
    → get_elem? w.conn.cursors cid ≡ some cur
    → (converted F cur.paramstyle operation w.conn).0 ≡ ok (statement, args_of)
    → make_args args_of vals ≡ ok args
    → make_params F.between args ≡ err e
    → ((execute F fuel cid operation vals w).0 ≡ err e)
      × ((execute F fuel cid operation vals w).1.conn.output ≡ w.conn.output)
      × ((execute F fuel cid operation vals w).1.conn.statements ≡ w.conn.statements)
      × ((execute F fuel cid operation vals w).1.conn.cursors ≡ w.conn.cursors)
unfolding execute style_of present
execute-refused F fuel cid operation vals w cur statement args_of args e at made given refused =
    let (o, s, c) = converted-Unwritten F cur.paramstyle operation w.conn in
    rw (at, made, given, refused) (refl, o, s, c)
