-- ===== src/Session/Reachable.antt =====
-- Every state that a program can reach: a start-up that returned, then any calls of the methods, each on
-- whatever the server has sent by then. Where a method raises, the program may go on with the state that
-- it left.
use amazon_redshift_python_d.Prelude.{ℕ, ◌≡◌, Bool, Option, List, ◌++◌}
use amazon_redshift_python_d.Prelude.Int.{ℤ}
use amazon_redshift_python_d.Prelude.Result.{Result, ok}
use amazon_redshift_python_d.Prelude.Keeps.{Keeps, Keeps_lem}
use amazon_redshift_python_d.Prelude.Text.{Bytes, Text}
use amazon_redshift_python_d.Paramstyle.{Style}
use amazon_redshift_python_d.Types.Args.{PyValue}
use amazon_redshift_python_d.Connection.{Field, Foreign, StreamAttribute, Xid}
use amazon_redshift_python_d.Connection.Coherent.{IsCoherent}
use amazon_redshift_python_d.Connection.Execute.Requests.{Vals}
use amazon_redshift_python_d.Connection.Execute.Kept.{Cached, Holds, on_cursor-Keeps}
use amazon_redshift_python_d.Connection.Messages.{World, locally}
use amazon_redshift_python_d.Cursor.{fetchall, fetchmany, fetchone}
use amazon_redshift_python_d.Session.{
  callproc, close, close_cursor, commit, cursor, cursor_execute, executemany, on_rows, rollback,
  run,
}
use amazon_redshift_python_d.Session.Bulk.{insert_data_bulk}
use amazon_redshift_python_d.Session.Bulk.Kept.{insert_data_bulk-Keeps}
use amazon_redshift_python_d.Session.Invariant.{
  callproc-Keeps, close-Keeps, commit-Keeps, cursor-Keeps, cursor_execute-Keeps, executemany-Keeps,
  here-Keeps, on_rows-Keeps, rollback-Keeps, run-Keeps, tpc_begin-Keeps, tpc_commit-Keeps,
  tpc_prepare-Keeps, tpc_recover-Keeps, tpc_rollback-Keeps,
}
use amazon_redshift_python_d.Session.Startup.Connect.{connect}
use amazon_redshift_python_d.Session.Startup.Kept.{Returns_lem, connect-Returns}
use amazon_redshift_python_d.Session.Startup.Params.{Options}
use amazon_redshift_python_d.Session.Tpc.{
  tpc_begin, tpc_commit, tpc_prepare, tpc_recover, tpc_rollback,
}

-- The calls, with their arguments; `cid` is a cursor. The row descriptions of the fetches are the
-- arguments that these methods take in the model.
pub data Call : Type 0 where
  call_execute : (cid : ℕ) → Text → Vals → StreamAttribute → Bool → Call
  call_executemany : (cid : ℕ) → Text → List Vals → Call
  call_callproc : (cid : ℕ) → Text → List PyValue → Call
  call_insert_data_bulk :
      (cid : ℕ) → Result (List (List Text)) → Text → List ℤ → List Text → ℤ → Call
  call_run : Text → StreamAttribute → List (Text × PyValue) → Call
  call_commit call_rollback call_close call_cursor call_tpc_prepare call_tpc_recover : Call
  call_tpc_begin : Xid → Call
  call_tpc_commit call_tpc_rollback : Option Xid → Call
  call_close_cursor : (cid : ℕ) → Call
  call_fetchone call_fetchall : (cid : ℕ) → Option (List Field) → Call
  call_fetchmany : (cid : ℕ) → Option (List Field) → ℤ → Option ℤ → Call
  -- `connection.autocommit = b`
  set_autocommit : Bool → Call

module _ (F : Foreign) (paramstyle : Style) (fuel : ℕ) where
  -- The state that a call leaves.
  unfoldable pub perform : Call → World → World
  perform (call_execute cid operation args source merge) w =
      (cursor_execute F fuel cid operation args source merge w).1
  perform (call_executemany cid operation param_sets) w =
      (executemany F fuel cid operation param_sets w).1
  perform (call_callproc cid procname args) w = (callproc F fuel cid procname args w).1
  perform (call_insert_data_bulk cid file table indices columns batch_size) w =
      (insert_data_bulk F fuel cid file table indices columns batch_size w).1
  perform (call_run sql source params) w = (run F fuel sql source params w).1
  perform call_commit w = (commit F fuel w).1
  perform call_rollback w = (rollback F fuel w).1
  perform call_close w = (locally close w).1
  perform call_cursor w = (locally (cursor paramstyle) w).1
  perform call_tpc_prepare w = (tpc_prepare F paramstyle fuel w).1
  perform call_tpc_recover w = (tpc_recover F paramstyle fuel w).1
  perform (call_tpc_begin xid) w = (tpc_begin F paramstyle fuel xid w).1
  perform (call_tpc_commit xid) w = (tpc_commit F paramstyle fuel xid w).1
  perform (call_tpc_rollback xid) w = (tpc_rollback F paramstyle fuel xid w).1
  perform (call_close_cursor cid) w = (locally (close_cursor cid) w).1
  perform (call_fetchone cid row_desc) w = (locally (on_rows cid (fetchone row_desc)) w).1
  perform (call_fetchall cid row_desc) w = (locally (on_rows cid (fetchall row_desc)) w).1
  perform (call_fetchmany cid row_desc arraysize num) w =
      (locally (on_rows cid (fetchmany row_desc arraysize num)) w).1
  perform (set_autocommit b) w = record w { conn = record w.conn { autocommit = b } }

  -- The steps of a program and of the server, which may send any bytes at any time.
  pub data Reachable : World → Type 0 where
    started_up :
        {w : World} (o : Options) (input : Bytes) → connect F fuel o input ≡ ok w → Reachable w
    called : {w : World} (call : Call) → Reachable w → Reachable (perform call w)
    received :
        {w : World} (more : Bytes) → Reachable w → Reachable (record w { input = w.input ++ more })

  close_cursor-Keeps : (cid : ℕ) → Keeps (Holds Cached) (locally (close_cursor cid))
  unfolding close_cursor
  close_cursor-Keeps cid = here-Keeps (on_cursor-Keeps Cached cid _)

  autocommit-Holds :
      (b : Bool) (w : World)
      → Holds Cached w
      → Holds Cached (record w { conn = record w.conn { autocommit = b } })
  unfolding IsCoherent
  autocommit-Holds b w h = h

  perform-Holds : (call : Call) (w : World) → Holds Cached w → Holds Cached (perform call w)
  unfolding perform
  perform-Holds (call_execute cid operation args source merge) =
      Keeps_lem (cursor_execute-Keeps F fuel cid operation args source merge)
  perform-Holds (call_executemany cid operation param_sets) =
      Keeps_lem (executemany-Keeps F fuel cid operation param_sets)
  perform-Holds (call_callproc cid procname args) =
      Keeps_lem (callproc-Keeps F fuel cid procname args)
  perform-Holds (call_insert_data_bulk cid file table indices columns batch_size) =
      Keeps_lem (insert_data_bulk-Keeps F fuel cid file table indices columns batch_size)
  perform-Holds (call_run sql source params) = Keeps_lem (run-Keeps F fuel sql source params)
  perform-Holds call_commit = Keeps_lem (commit-Keeps F fuel)
  perform-Holds call_rollback = Keeps_lem (rollback-Keeps F fuel)
  perform-Holds call_close = Keeps_lem (here-Keeps close-Keeps)
  perform-Holds call_cursor = Keeps_lem (here-Keeps (cursor-Keeps paramstyle))
  perform-Holds call_tpc_prepare = Keeps_lem (tpc_prepare-Keeps F paramstyle fuel)
  perform-Holds call_tpc_recover = Keeps_lem (tpc_recover-Keeps F paramstyle fuel)
  perform-Holds (call_tpc_begin xid) = Keeps_lem (tpc_begin-Keeps F paramstyle fuel xid)
  perform-Holds (call_tpc_commit xid) = Keeps_lem (tpc_commit-Keeps F paramstyle fuel xid)
  perform-Holds (call_tpc_rollback xid) = Keeps_lem (tpc_rollback-Keeps F paramstyle fuel xid)
  perform-Holds (call_close_cursor cid) = Keeps_lem (close_cursor-Keeps cid)
  perform-Holds (call_fetchone cid row_desc) =
      Keeps_lem (here-Keeps (on_rows-Keeps cid (fetchone row_desc)))
  perform-Holds (call_fetchall cid row_desc) =
      Keeps_lem (here-Keeps (on_rows-Keeps cid (fetchall row_desc)))
  perform-Holds (call_fetchmany cid row_desc arraysize num) =
      Keeps_lem (here-Keeps (on_rows-Keeps cid (fetchmany row_desc arraysize num)))
  perform-Holds (set_autocommit b) = autocommit-Holds b

-- In every state that start-up, any calls and any bytes of the server can lead to, the connection is
-- coherent: its conversions are those of the protocol version, its deques hold 100 entries at most, what
-- its caches hold exists, no two cached statements of a process have the same number, and no cache holds
-- more than max_prepared_statements and one.
pub Reachable-IsCoherent :
    (F : Foreign) (paramstyle : Style) (fuel : ℕ) (w : World)
    → Reachable F paramstyle fuel w
    → IsCoherent Cached w.conn
Reachable-IsCoherent F paramstyle fuel _ (started_up {w} o input e) =
    Returns_lem (connect-Returns F fuel o input) w e
Reachable-IsCoherent F paramstyle fuel _ (called {w} call reached) =
    perform-Holds F paramstyle fuel call w (Reachable-IsCoherent F paramstyle fuel w reached)
Reachable-IsCoherent F paramstyle fuel _ (received {w} more reached) =
    Reachable-IsCoherent F paramstyle fuel w reached
