-- ===== src/Session/Bulk/Kept.antt =====
-- `insert_data_bulk` keeps the connection coherent.
use amazon_redshift_python_d.Prelude.{ℕ, List, [], ◌∷◌}
use amazon_redshift_python_d.Prelude.Int.{ℤ}
use amazon_redshift_python_d.Prelude.Action.{Action, modify, raise, finally_do}
use amazon_redshift_python_d.Prelude.Result.{Result, ok, err, interface_error}
use amazon_redshift_python_d.Prelude.Keeps.{
  Keeps, modify-Keeps, bind-Keeps, then-Keeps, lift-Keeps, raise-Keeps, keeping, finally_do-Keeps,
  except_do-Keeps,
}
use amazon_redshift_python_d.Prelude.Text.{Text}
use amazon_redshift_python_d.Paramstyle.{Style}
use amazon_redshift_python_d.Connection.{Foreign}
use amazon_redshift_python_d.Connection.Coherent.{IsCoherent}
use amazon_redshift_python_d.Connection.Execute.Kept.{Cached, Holds}
use amazon_redshift_python_d.Connection.Messages.{World, Step}
use amazon_redshift_python_d.Session.Invariant.{
  here-Keeps, cursor_at-Keeps, on_rows-Keeps, row_desc_of-Keeps, cursor_execute-Keeps,
}
use amazon_redshift_python_d.Session.Bulk.{
  check_columns, fetch_one, has_valid_columns, insert_data_bulk, insert_loop, insert_rows,
  is_valid_table, load_file, read_file, try_file, set_style, table_query, with_qmark,
}

set_style-Holds :
    (cid : ℕ) (style : Style) (w : World) → Holds Cached w → Holds Cached (set_style cid style w)
unfolding set_style IsCoherent
set_style-Holds cid style w h = h

set_style-Keeps : (cid : ℕ) (style : Style) → Keeps (Holds Cached) (modify (set_style cid style))
set_style-Keeps cid style = modify-Keeps (set_style-Holds cid style)

with_qmark-Keeps :
    {A : Type 0} (cid : ℕ) (m : Action World A)
    → Keeps (Holds Cached) m
    → Keeps (Holds Cached) (with_qmark cid m)
unfolding with_qmark
with_qmark-Keeps cid m keeps = bind-Keeps (here-Keeps (cursor_at-Keeps cid)) (λ cur.
    finally_do-Keeps _ (set_style cid cur.paramstyle) (then-Keeps (set_style-Keeps cid _) keeps)
      (set_style-Holds cid cur.paramstyle))

fetch_one-Keeps : (cid : ℕ) → Keeps (Holds Cached) (fetch_one cid)
unfolding fetch_one
fetch_one-Keeps cid = search (keeping, here-Keeps, row_desc_of-Keeps, on_rows-Keeps) depth 20

module _ (F : Foreign) (fuel cid : ℕ) where
  table_query-Keeps : (parts : List Text) → Keeps (Holds Cached) (table_query F fuel cid parts)
  unfolding table_query
  table_query-Keeps [] = raise-Keeps _
  table_query-Keeps (a ∷ []) = cursor_execute-Keeps F fuel cid _ _ _ _
  table_query-Keeps (a ∷ b ∷ []) = cursor_execute-Keeps F fuel cid _ _ _ _
  table_query-Keeps (a ∷ b ∷ c ∷ ds) = raise-Keeps _

  is_valid_table-Keeps : (table : Text) → Keeps (Holds Cached) (is_valid_table F fuel cid table)
  unfolding is_valid_table
  is_valid_table-Keeps table =
      search (keeping, with_qmark-Keeps, table_query-Keeps, fetch_one-Keeps) depth 20

  check_columns-Keeps :
      (q : Text) (param_list : List (List Text))
      → Keeps (Holds Cached) (check_columns F fuel cid q param_list)
  unfolding check_columns
  check_columns-Keeps q [] = lift-Keeps _
  check_columns-Keeps q (params ∷ rest) =
      search (keeping, cursor_execute-Keeps F, fetch_one-Keeps, check_columns-Keeps q rest) depth 20

  has_valid_columns-Keeps :
      (table : Text) (columns : List Text)
      → Keeps (Holds Cached) (has_valid_columns F fuel cid table columns)
  unfolding has_valid_columns
  has_valid_columns-Keeps table columns = search (with_qmark-Keeps, check_columns-Keeps) depth 10

  insert_loop-Keeps :
      (batch_size : ℕ) (base : Text) (indices : List ℤ) (rows : List (List Text))
      (values_list : List Text) (row_count : ℕ)
      → Keeps
          (Holds Cached)
          (insert_loop F fuel cid batch_size base indices values_list row_count rows)
  unfolding insert_loop insert_rows
  insert_loop-Keeps batch_size base indices [] values_list row_count =
      search (keeping, cursor_execute-Keeps F) depth 20
  insert_loop-Keeps batch_size base indices (row ∷ rows) values_list row_count =
      search (keeping, cursor_execute-Keeps F, insert_loop-Keeps batch_size base indices rows) depth
        20

  read_file-Keeps :
      (batch_size : ℕ) (base : Text) (indices : List ℤ) (file : Result (List (List Text)))
      → Keeps (Holds Cached) (read_file F fuel cid batch_size base indices file)
  unfolding read_file
  read_file-Keeps batch_size base indices (err e) = raise-Keeps _
  read_file-Keeps batch_size base indices (ok rows) =
      insert_loop-Keeps batch_size base indices rows [] 0

  try_file-Keeps :
      (batch_size : ℕ) (base : Text) (indices : List ℤ) (file : Result (List (List Text)))
      → Keeps (Holds Cached) (try_file F fuel cid batch_size base indices file)
  unfolding try_file
  try_file-Keeps batch_size base indices file =
      except_do-Keeps _ (λ e. raise (interface_error "insert_data_bulk"))
        (read_file-Keeps batch_size base indices file) (λ e. raise-Keeps _)

  restoring-Keeps :
      (style : Style) (m : Step)
      → Keeps (Holds Cached) m
      → Keeps (Holds Cached) (finally_do m (set_style cid style))
  restoring-Keeps style m keeps =
      finally_do-Keeps m (set_style cid style) keeps (set_style-Holds cid style)

  load_file-Keeps :
      (file : Result (List (List Text))) (table : Text) (indices : List ℤ) (columns : List Text)
      (batch_size : ℤ)
      → Keeps (Holds Cached) (load_file F fuel cid file table indices columns batch_size)
  unfolding load_file
  load_file-Keeps file table indices columns batch_size =
      search (keeping, here-Keeps, cursor_at-Keeps, restoring-Keeps, try_file-Keeps) depth 20

  pub insert_data_bulk-Keeps :
      (file : Result (List (List Text))) (table : Text) (indices : List ℤ) (columns : List Text)
      (batch_size : ℤ)
      → Keeps (Holds Cached) (insert_data_bulk F fuel cid file table indices columns batch_size)
  unfolding insert_data_bulk
  insert_data_bulk-Keeps file table indices columns batch_size =
      search (keeping, is_valid_table-Keeps, has_valid_columns-Keeps, load_file-Keeps) depth 20
