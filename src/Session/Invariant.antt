-- ===== src/Session/Invariant.antt =====
-- Every method of a connection and of its cursors keeps the connection coherent, whatever the server
-- answers, and so does every sequence of calls after a start-up that returned.
use amazon_redshift_python_d.Prelude.{
  ℕ, Bool, true, Option, none, some, List, [], ◌∷◌, ◌++◌, get_elem?,
}
use amazon_redshift_python_d.Prelude.Action.{Action, modify}
use amazon_redshift_python_d.Prelude.Result.{Exception}
use amazon_redshift_python_d.Prelude.Keeps.{
  Keeps, modify-Keeps, bind-Keeps, then-Keeps, if-Keeps, lift-Keeps, raise-Keeps, self-Keeps,
  keeping, finally_do-Keeps, except_do-Keeps,
}
use amazon_redshift_python_d.Prelude.Text.{Text}
use amazon_redshift_python_d.Types.Args.{PyValue}
use amazon_redshift_python_d.Paramstyle.{Style}
use amazon_redshift_python_d.Connection.{Connection, Cursor, Foreign, StreamAttribute, Xid}
use amazon_redshift_python_d.Connection.Coherent.{IsCoherent}
use amazon_redshift_python_d.Connection.Execute.Requests.{Vals}
use amazon_redshift_python_d.Connection.Execute.Kept.{
  Cached, Cached-Shrinks, Holds, Shrinks-Clears, on_cursor-Keeps, present-Keeps,
}
use amazon_redshift_python_d.Connection.Execute.Invariant.{execute-Keeps}
use amazon_redshift_python_d.Connection.Messages.{World, Step, locally}
use amazon_redshift_python_d.Connection.Messages.Kept.{Clears, locally-Keeps}
use amazon_redshift_python_d.Connection.Sending.Kept.{write-Keeps}
use amazon_redshift_python_d.Session.{
  begin, call_statement, callproc, close, closed_error, commit, cursor, cursor_at, cursor_execute,
  execute_each, executemany, not_open, on_rows, rollback, run,
}
use amazon_redshift_python_d.Session.Tpc.{
  finish, finish_body, finish_xid, prepare_xid, recover_rows, row_desc_of, set_autocommit,
  tpc_begin, tpc_commit, tpc_prepare, tpc_recover, tpc_rollback, with_autocommit,
}

clears : Clears Cached
clears = Shrinks-Clears Cached Cached-Shrinks

pub here-Keeps :
    {A : Type 0} {m : Action Connection A}
    → Keeps (IsCoherent Cached) m
    → Keeps (Holds Cached) (locally m)
here-Keeps keeps = locally-Keeps Cached clears keeps

-- Attributes that the invariant does not speak of.
merge-Keeps :
    (b : Bool) → Keeps (IsCoherent Cached) (modify (λ c. record c { merge_socket_read = b }))
unfolding IsCoherent
merge-Keeps b = modify-Keeps (λ c h. h)

xid-Keeps : (x : Option Xid) → Keeps (IsCoherent Cached) (modify (λ c. record c { xid = x }))
unfolding IsCoherent
xid-Keeps x = modify-Keeps (λ c h. h)

pub cursor_at-Keeps : (cid : ℕ) → Keeps (IsCoherent Cached) (cursor_at cid)
unfolding cursor_at
cursor_at-Keeps cid = bind-Keeps self-Keeps (λ c. present-Keeps Cached (get_elem? c.cursors cid))

pub on_rows-Keeps :
    {A : Type 0} (cid : ℕ) (m : Action Cursor A) → Keeps (IsCoherent Cached) (on_rows cid m)
unfolding on_rows
on_rows-Keeps cid m = search (keeping, cursor_at-Keeps, on_cursor-Keeps Cached) depth 20

add_cursor-Keeps :
    (cur : Cursor)
    → Keeps (IsCoherent Cached) (modify (λ d. record d { cursors = d.cursors ++ (cur ∷ []) }))
unfolding IsCoherent
add_cursor-Keeps cur = modify-Keeps (λ c h. h)

pub cursor-Keeps : (style : Style) → Keeps (IsCoherent Cached) (cursor style)
unfolding cursor
cursor-Keeps style = search (keeping, add_cursor-Keeps) depth 10

pub row_desc_of-Keeps : (cid : ℕ) → Keeps (IsCoherent Cached) (row_desc_of cid)
unfolding row_desc_of
row_desc_of-Keeps cid = search (keeping, cursor_at-Keeps) depth 20

not_open-Keeps : (e : Exception) → Keeps (IsCoherent Cached) (not_open e)
unfolding not_open
not_open-Keeps e = if-Keeps _ (raise-Keeps _) (raise-Keeps _)

pub close-Keeps : Keeps (IsCoherent Cached) close
unfolding close IsCoherent
close-Keeps =
    finally_do-Keeps _ (λ c. record c { closed = true })
      (except_do-Keeps _ not_open (write-Keeps Cached _) not_open-Keeps) (λ c h. h)

module _ (F : Foreign) where
  begin-Keeps : (fuel cid : ℕ) (c : Connection) → Keeps (Holds Cached) (begin F fuel cid c)
  unfolding begin
  begin-Keeps fuel cid c = search (keeping, execute-Keeps F) depth 10

  pub cursor_execute-Keeps :
      (fuel cid : ℕ) (operation : Text) (args : Vals) (source : StreamAttribute) (merge : Bool)
      → Keeps (Holds Cached) (cursor_execute F fuel cid operation args source merge)
  unfolding cursor_execute
  cursor_execute-Keeps fuel cid operation args source merge =
      search
        (
          keeping,
          here-Keeps,
          cursor_at-Keeps,
          on_cursor-Keeps Cached,
          begin-Keeps,
          merge-Keeps,
          execute-Keeps F,
        )
        depth 40 fits 5000

  execute_each-Keeps :
      (fuel cid : ℕ) (operation : Text) (param_sets : List Vals)
      → Keeps (Holds Cached) (execute_each F fuel cid operation param_sets)
  unfolding execute_each
  execute_each-Keeps fuel cid operation [] = lift-Keeps _
  execute_each-Keeps fuel cid operation (args ∷ rest) =
      search
        (
          keeping,
          here-Keeps,
          cursor_at-Keeps,
          cursor_execute-Keeps,
          execute_each-Keeps fuel cid operation rest,
        )
        depth 40 fits 5000

  pub executemany-Keeps :
      (fuel cid : ℕ) (operation : Text) (param_sets : List Vals)
      → Keeps (Holds Cached) (executemany F fuel cid operation param_sets)
  unfolding executemany
  executemany-Keeps fuel cid operation param_sets =
      search (keeping, here-Keeps, execute_each-Keeps, on_cursor-Keeps Cached) depth 20

  closed_error-Keeps : (cid : ℕ) (e : Exception) → Keeps (Holds Cached) (closed_error F cid e)
  unfolding closed_error
  closed_error-Keeps cid e = search (keeping, here-Keeps, cursor_at-Keeps) depth 20

  call_statement-Keeps :
      (fuel cid : ℕ) (procname : Text) (args : List PyValue)
      → Keeps (Holds Cached) (call_statement F fuel cid procname args)
  unfolding call_statement
  call_statement-Keeps fuel cid procname args = search (keeping, cursor_execute-Keeps) depth 20

  pub callproc-Keeps :
      (fuel cid : ℕ) (procname : Text) (args : List PyValue)
      → Keeps (Holds Cached) (callproc F fuel cid procname args)
  unfolding callproc
  callproc-Keeps fuel cid procname args =
      except_do-Keeps _ (closed_error F cid) (call_statement-Keeps fuel cid procname args)
        (closed_error-Keeps cid)

  pub commit-Keeps : (fuel : ℕ) → Keeps (Holds Cached) (commit F fuel)
  unfolding commit
  commit-Keeps fuel = execute-Keeps F fuel 0 _ _

  pub rollback-Keeps : (fuel : ℕ) → Keeps (Holds Cached) (rollback F fuel)
  unfolding rollback
  rollback-Keeps fuel = search (keeping, execute-Keeps F) depth 10

  pub run-Keeps :
      (fuel : ℕ) (sql : Text) (source : StreamAttribute) (params : List (Text × PyValue))
      → Keeps (Holds Cached) (run F fuel sql source params)
  unfolding run
  run-Keeps fuel sql source params =
      search (keeping, here-Keeps, cursor_at-Keeps, cursor_execute-Keeps) depth 20

  set_autocommit-Keeps : (b : Bool) (w : World) → Holds Cached w → Holds Cached (set_autocommit b w)
  unfolding set_autocommit IsCoherent
  set_autocommit-Keeps b w h = h

  autocommit-Keeps : (b : Bool) → Keeps (Holds Cached) (modify (set_autocommit b))
  autocommit-Keeps b = modify-Keeps (set_autocommit-Keeps b)

  with_autocommit-Keeps :
      {A : Type 0} (m : Action World A)
      → Keeps (Holds Cached) m
      → Keeps (Holds Cached) (with_autocommit m)
  unfolding with_autocommit
  with_autocommit-Keeps m keeps = bind-Keeps self-Keeps (λ w.
      finally_do-Keeps _ (set_autocommit w.conn.autocommit)
        (then-Keeps (autocommit-Keeps true) keeps) (set_autocommit-Keeps w.conn.autocommit))

  module _ (paramstyle : Style) where
    recover_body-Keeps : (fuel : ℕ) → Keeps (Holds Cached) (recover_rows F paramstyle fuel)
    unfolding recover_rows
    recover_body-Keeps fuel =
        search
          (
            keeping, here-Keeps, cursor-Keeps, cursor_execute-Keeps, row_desc_of-Keeps,
            on_rows-Keeps,
          )
          depth 40 fits 5000

    pub tpc_recover-Keeps : (fuel : ℕ) → Keeps (Holds Cached) (tpc_recover F paramstyle fuel)
    unfolding tpc_recover
    tpc_recover-Keeps fuel = with_autocommit-Keeps _ (recover_body-Keeps fuel)

    pub tpc_begin-Keeps :
        (fuel : ℕ) (xid : Xid) → Keeps (Holds Cached) (tpc_begin F paramstyle fuel xid)
    unfolding tpc_begin
    tpc_begin-Keeps fuel xid = search (keeping, here-Keeps, xid-Keeps, execute-Keeps F) depth 20

    prepare_xid-Keeps :
        (fuel : ℕ) (xid : Option Xid) → Keeps (Holds Cached) (prepare_xid F paramstyle fuel xid)
    unfolding prepare_xid
    prepare_xid-Keeps fuel none = raise-Keeps _
    prepare_xid-Keeps fuel (some xid) = search (keeping, execute-Keeps F) depth 20

    pub tpc_prepare-Keeps : (fuel : ℕ) → Keeps (Holds Cached) (tpc_prepare F paramstyle fuel)
    unfolding tpc_prepare
    tpc_prepare-Keeps fuel = search (keeping, prepare_xid-Keeps) depth 10

    finish_body-Keeps :
        (fuel : ℕ) (command : Text) (single : Step) (xid : Xid)
        → Keeps (Holds Cached) single
        → Keeps (Holds Cached) (finish_body F paramstyle fuel command single xid)
    unfolding finish_body
    finish_body-Keeps fuel command single xid keeps =
        search (keeping, tpc_recover-Keeps, execute-Keeps F, keeps) depth 20

    finish_xid-Keeps :
        (fuel : ℕ) (command : Text) (single : Step) (xid : Xid)
        → Keeps (Holds Cached) single
        → Keeps (Holds Cached) (finish_xid F paramstyle fuel command single xid)
    unfolding finish_xid
    finish_xid-Keeps fuel command single xid keeps =
        then-Keeps (with_autocommit-Keeps _ (finish_body-Keeps fuel command single xid keeps))
          (here-Keeps (xid-Keeps none))

    finish-Keeps :
        (fuel : ℕ) (command : Text) (single : Step) (xid : Option Xid)
        → Keeps (Holds Cached) single
        → Keeps (Holds Cached) (finish F paramstyle fuel command single xid)
    unfolding finish
    finish-Keeps fuel command single none keeps = raise-Keeps _
    finish-Keeps fuel command single (some xid) keeps =
        finish_xid-Keeps fuel command single xid keeps

    pub tpc_commit-Keeps :
        (fuel : ℕ) (xid : Option Xid) → Keeps (Holds Cached) (tpc_commit F paramstyle fuel xid)
    unfolding tpc_commit
    tpc_commit-Keeps fuel xid = search (keeping, finish-Keeps, commit-Keeps) depth 10

    pub tpc_rollback-Keeps :
        (fuel : ℕ) (xid : Option Xid) → Keeps (Holds Cached) (tpc_rollback F paramstyle fuel xid)
    unfolding tpc_rollback
    tpc_rollback-Keeps fuel xid = search (keeping, finish-Keeps, rollback-Keeps) depth 10
