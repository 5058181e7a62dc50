-- ===== src/Session/Tpc.antt =====
-- redshift_connector/core.py: the methods of the two-phase commit.
use amazon_redshift_python_d.Prelude.{
  ℕ, zero, Bool, true, false, ◌||◌, Option, none, some, List, [], ◌∷◌, ◌++◌, ltb, ◌==◌,
  if◌then◌else◌, length, get_elem?,
}
use amazon_redshift_python_d.Prelude.Int.{pos, negsuc}
use amazon_redshift_python_d.Prelude.Result.{
  Result, ok, err, interface_error, programming_error, index_error,
}
use amazon_redshift_python_d.Prelude.Action.{
  Action, pure, raise, lift, self, modify, finally_do, ◌>>=◌, ◌>>◌,
}
use amazon_redshift_python_d.Prelude.Text.{Text, text_eq, codes, str_int}
use amazon_redshift_python_d.Paramstyle.{Style}
use amazon_redshift_python_d.Types.{Value, integer, string}
use amazon_redshift_python_d.Connection.{
  Connection, Field, Foreign, Xid, XidPart, number, text, no_stream,
}
use amazon_redshift_python_d.Connection.Execute.{execute}
use amazon_redshift_python_d.Connection.Execute.Requests.{no_vals}
use amazon_redshift_python_d.Connection.Messages.{World, Step, locally}
use amazon_redshift_python_d.Cursor.{fetchall}
use amazon_redshift_python_d.Session.{cursor_at, on_rows, cursor, cursor_execute, commit, rollback}

str_part : XidPart → Text
str_part (number z) = str_int z
str_part (text t) = t

-- xid[1]
second_part : Xid → Result Text
unfolding str_part
second_part (a ∷ b ∷ rest) = ok (str_part b)
second_part xid = err index_error

-- `row[0]` against a part: a column of another type equals none.
same_part : Value → XidPart → Bool
same_part (integer (pos m)) (number (pos n)) = m == n
same_part (integer (negsuc m)) (number (negsuc n)) = m == n
same_part (string s) (text t) = text_eq s t
same_part v p = false

-- xid == (0, row[0], "")
same_xid : Xid → Value → Bool
unfolding same_part
same_xid (number (pos zero) ∷ b ∷ text [] ∷ []) v = same_part v b
same_xid xid v = false

unfoldable pub is_pending : Xid → List Value → Bool
unfolding same_xid
is_pending xid [] = false
is_pending xid (v ∷ vs) = same_xid xid v || is_pending xid vs

-- row[0] of each row
first_columns : List (List Value) → Result (List Value)
first_columns [] = ok []
first_columns ([] ∷ rows) = err index_error
first_columns ((v ∷ vs) ∷ rows) = with_rest v (first_columns rows)
  where
    with_rest : Value → Result (List Value) → Result (List Value)
    with_rest v (ok rest) = ok (v ∷ rest)
    with_rest v (err e) = err e

-- The row description of the cursor's statement.
unfoldable pub row_desc_of : ℕ → Action Connection (Option (List Field))
unfolding cursor_at
row_desc_of cid = do
  cur ← cursor_at cid
  c ← self
  pure (elim cur.ps [
    | none ↦ none
    | some sid ↦ elim (get_elem? c.statements sid) [ none ↦ none | some ps ↦ some ps.row_desc ]
  ])

-- `'<text>';` behind a command
abbrev quoted : Text → Text → Text
quoted command t = command ++ (codes " '" ++ (t ++ codes "';"))

unfoldable pub set_autocommit : Bool → World → World
set_autocommit b w = record w { conn = record w.conn { autocommit = b } }

-- The body with autocommit on; `finally` puts the earlier mode back.
unfoldable pub with_autocommit : {A : Type 0} → Action World A → Action World A
unfolding set_autocommit
with_autocommit m = do
  w ← self
  finally_do (do modify (set_autocommit true); m) (set_autocommit w.conn.autocommit)

module _ (F : Foreign) (paramstyle : Style) where
  -- `paramstyle` is the one of the module, which a new cursor takes. The answer is the second parts of
  -- the ids, (0, row[0], "") each.
  unfoldable pub recover_rows : ℕ → Action World (List Value)
  unfolding first_columns cursor on_rows
  recover_rows fuel = do
    cid ← locally (cursor paramstyle)
    cursor_execute F fuel cid (codes "select xact_id FROM stl_undone") no_vals no_stream false
    row_desc ← locally (row_desc_of cid)
    rows ← locally (on_rows cid (fetchall row_desc))
    lift (first_columns rows)

  unfoldable pub tpc_recover : ℕ → Action World (List Value)
  tpc_recover fuel = with_autocommit (recover_rows fuel)

  unfoldable pub tpc_begin : ℕ → Xid → Step
  tpc_begin fuel xid = do
    locally (modify (λ c. record c { xid = some xid }))
    w ← self
    if w.conn.autocommit then execute F fuel 0 (codes "begin transaction") no_vals else pure tt

  unfoldable pub prepare_xid : ℕ → Option Xid → Step
  unfolding second_part
  prepare_xid fuel none = raise (interface_error "Malformed Transaction Id")
  prepare_xid fuel (some xid) =
      if ltb (length xid) 2 then raise (interface_error "Malformed Transaction Id") else (do
        t ← lift (second_part xid)
        execute F fuel 0 (quoted (codes "PREPARE TRANSACTION") t) no_vals)

  unfoldable pub tpc_prepare : ℕ → Step
  unfolding prepare_xid
  tpc_prepare fuel = do w ← self; prepare_xid fuel w.conn.xid

  -- tpc_commit and tpc_rollback: the command for a transaction that is prepared, else `single`.
  unfoldable pub finish_body : ℕ → Text → Step → Xid → Step
  unfolding tpc_recover second_part is_pending
  finish_body fuel command single xid = do
    pending ← tpc_recover fuel
    if is_pending xid pending
        then (do t ← lift (second_part xid); execute F fuel 0 (quoted command t) no_vals)
        else single

  unfoldable pub finish_xid : ℕ → Text → Step → Xid → Step
  unfolding finish_body
  finish_xid fuel command single xid = do
    with_autocommit (finish_body fuel command single xid)
    locally (modify (λ c. record c { xid = none }))

  unfoldable pub finish : ℕ → Text → Step → Option Xid → Step
  unfolding finish_xid
  finish fuel command single none =
      raise (programming_error "Cannot end a TPC transaction: there is none!")
  finish fuel command single (some xid) = finish_xid fuel command single xid

  -- The argument, or the connection's own id.
  unfoldable pub chosen : Option Xid → Connection → Option Xid
  chosen none c = c.xid
  chosen (some xid) c = some xid

  unfoldable pub tpc_commit : ℕ → Option Xid → Step
  unfolding finish chosen
  tpc_commit fuel xid = do
    w ← self
    finish fuel (codes "COMMIT PREPARED") (commit F fuel) (chosen xid w.conn)

  unfoldable pub tpc_rollback : ℕ → Option Xid → Step
  unfolding finish chosen
  tpc_rollback fuel xid = do
    w ← self
    finish fuel (codes "ROLLBACK PREPARED") (rollback F fuel) (chosen xid w.conn)
