-- ===== src/Session/Bulk.antt =====
-- redshift_connector/cursor.py: `insert_data_bulk` with `__is_valid_table` and `__has_valid_columns`.
-- The csv module is no part of the repository: `file` gives the rows behind the header, or what open,
-- the reader or the missing header raises.
pub mod Kept
use mathlib.Core.List.{concat}
use amazon_redshift_python_d.Prelude.{
  ℕ, zero, suc, ◌+◌, ◌-◌, ◌^◌, Bool, true, false, not, ◌&&◌, ◌||◌, Option, none, some, List, [],
  ◌∷◌, ◌++◌, map, ltb, ◌==◌, if◌then◌else◌, length, get_elem?,
}
use amazon_redshift_python_d.Prelude.Int.{ℤ, pos, negsuc, ltb_ℤ}
use amazon_redshift_python_d.Prelude.Result.{
  Exception, Result, ok, err, interface_error, index_error, type_error,
}
use amazon_redshift_python_d.Prelude.Action.{
  Action, pure, raise, lift, self, modify, finally_do, except_do, handle_error, ◌>>=◌, ◌>>◌,
}
use amazon_redshift_python_d.Prelude.Text.{Text, codes, split}
use amazon_redshift_python_d.Paramstyle.{Style, qmark}
use amazon_redshift_python_d.Types.{Value, integer, boolean, decimal, float_word, double_word}
use amazon_redshift_python_d.Types.Args.{PyValue, scalar, str_value}
use amazon_redshift_python_d.Connection.{Connection, Cursor, Field, Foreign, no_stream}
use amazon_redshift_python_d.Connection.Execute.Requests.{sequence}
use amazon_redshift_python_d.Connection.Messages.{World, Step, locally, on_cursor}
use amazon_redshift_python_d.Cursor.{fetchone}
use amazon_redshift_python_d.Session.{cursor_at, on_rows, cursor_execute, placeholders}
use amazon_redshift_python_d.Session.Tpc.{row_desc_of}

-- `v == 1`; the last two are the words of 1.0.
is_one : Value → Bool
is_one (integer (pos n)) = n == 1
is_one (boolean b) = b
is_one (decimal (pos raw) scale) = raw == 10 ^ scale
is_one (float_word w) = w == 0x3f800000
is_one (double_word w) = w == 0x3ff0000000000000
is_one v = false

unfoldable pub set_style : ℕ → Style → World → World
set_style cid style w = record w {
  conn = on_cursor cid (λ cur. record cur { paramstyle = style }) w.conn;
}

-- `self.paramstyle = "qmark"`, and `finally` the earlier one.
unfoldable pub with_qmark : {A : Type 0} → ℕ → Action World A → Action World A
unfolding set_style cursor_at
with_qmark cid m = do
  cur ← locally (cursor_at cid)
  finally_do (do modify (set_style cid qmark); m) (set_style cid cur.paramstyle)

unfoldable pub fetch_one : ℕ → Action World (Option (List Value))
unfolding row_desc_of on_rows
fetch_one cid = do row_desc ← locally (row_desc_of cid); locally (on_rows cid (fetchone row_desc))

-- `result[0] == 1`
one_row : List Value → Result Bool
unfolding is_one
one_row [] = err index_error
one_row (v ∷ vs) = ok (is_one v)

abbrev strings : List Text → List PyValue
strings = map (λ t. scalar (str_value t))

-- The statement's text for so many rows of so many columns.
row_template : ℕ → Text
row_template columns = b'(' ∷ (placeholders columns ++ (b')' ∷ []))

join : List Text → Text
join [] = []
join (t ∷ []) = t
join (t ∷ u ∷ ts) = t ++ (codes ", " ++ join (u ∷ ts))

repeat : ℕ → Text → List Text
repeat zero t = []
repeat (suc n) t = t ∷ repeat n t

unfoldable pub insert_stmt : Text → ℕ → ℕ → Text
unfolding join repeat row_template
insert_stmt base columns rows = base ++ (join (repeat rows (row_template columns)) ++ (b';' ∷ []))

-- row[column_index] for each index; a negative one counts from the end.
column : List Text → ℤ → Option Text
column row (pos n) = get_elem? row n
column row (negsuc n) = if ltb n (length row) then get_elem? row (length row - suc n) else none

unfoldable pub select : List Text → List ℤ → Result (List Text)
unfolding column
select row [] = ok []
select row (j ∷ js) = chosen (column row j) (select row js)
  where
    chosen : Option Text → Result (List Text) → Result (List Text)
    chosen none rest = err index_error
    chosen (some t) (ok rest) = ok (t ∷ rest)
    chosen (some t) (err e) = err e

module _ (F : Foreign) (fuel cid : ℕ) where
  unfoldable pub table_query : List Text → Step
  table_query (schema ∷ table ∷ []) =
      cursor_execute F fuel cid
        (codes "select 1 from information_schema.tables where table_name = ? and table_schema = ?")
        (sequence (strings (table ∷ schema ∷ []))) no_stream false
  table_query (table ∷ []) =
      cursor_execute F fuel cid
        (codes "select 1 from information_schema.tables where table_name = ?")
        (sequence (strings (table ∷ []))) no_stream false
  table_query parts = raise index_error

  found_one : Option (List Value) → Result Bool
  unfolding one_row
  found_one none = ok false
  found_one (some row) = one_row row

  unfoldable pub is_valid_table : Text → Action World Bool
  unfolding table_query found_one fetch_one
  is_valid_table table =
      let parts = split b'.' table in
      if ltb 2 (length parts)
      then pure false
      else (do with_qmark cid (table_query parts); row ← fetch_one cid; lift (found_one row))

  -- A column that is not there has no row: subscripting None raises TypeError.
  check_column : Option (List Value) → Result (Unit {0})
  unfolding one_row
  check_column none = err type_error
  check_column (some row) = checked (one_row row)
    where
      checked : Result Bool → Result (Unit {0})
      checked (err e) = err e
      checked (ok true) = ok tt
      checked (ok false) = err (interface_error "Invalid column name")

  unfoldable pub check_columns : Text → List (List Text) → Step
  unfolding check_column fetch_one
  check_columns q [] = pure tt
  check_columns q (params ∷ rest) = do
    cursor_execute F fuel cid q (sequence (strings params)) no_stream false
    row ← fetch_one cid
    lift (check_column row)
    check_columns q rest

  column_queries : List Text → List Text → Text × List (List Text)
  column_queries (schema ∷ table ∷ []) columns = (
    codes
        "select 1 from information_schema.columns where table_name = ? and column_name = ? and table_schema = ?",
    map (λ c. table ∷ c ∷ schema ∷ []) columns,
  )
  column_queries (table ∷ rest) columns = (
    codes "select 1 from information_schema.columns where table_name = ? and column_name = ?",
    map (λ c. table ∷ c ∷ []) columns,
  )
  column_queries [] columns = ([], [])

  unfoldable pub has_valid_columns : Text → List Text → Step
  unfolding check_columns column_queries
  has_valid_columns table columns =
      let (q, param_list) = column_queries (split b'.' table) columns in
      with_qmark cid (check_columns q param_list)

  unfoldable pub insert_rows : Text → List ℤ → List Text → ℕ → Step
  insert_rows base indices values_list row_count =
      cursor_execute F fuel cid (insert_stmt base (length indices) row_count)
        (sequence (strings values_list)) no_stream false

  -- The loop over the rows; `values_list` and `row_count` are its variables.
  unfoldable pub insert_loop : ℕ → Text → List ℤ → List Text → ℕ → List (List Text) → Step
  unfolding insert_rows
  insert_loop batch_size base indices values_list row_count [] =
      if row_count == 0 then pure tt else insert_rows base indices values_list row_count
  insert_loop batch_size base indices values_list row_count (row ∷ rows) = do
    if row_count == batch_size then insert_rows base indices values_list row_count else pure tt
    let full = row_count == batch_size
    selected ← lift (select row indices)
    insert_loop batch_size base indices ((if full then [] else values_list) ++ selected)
        (if full then 1 else suc row_count) rows

  unfoldable pub read_file : ℕ → Text → List ℤ → Result (List (List Text)) → Step
  unfolding insert_loop
  read_file batch_size base indices (err e) = raise e
  read_file batch_size base indices (ok rows) = insert_loop batch_size base indices [] 0 rows

  base_stmt : Text → List Text → Text
  base_stmt table columns =
      codes "INSERT INTO  " ++ (table ++ (codes " (" ++ (join columns ++ codes ") VALUES ")))

  natural : ℤ → ℕ
  natural (pos n) = n
  natural (negsuc n) = 0

  -- Every exception of the file and of the statements becomes InterfaceError.
  unfoldable pub try_file : ℕ → Text → List ℤ → Result (List (List Text)) → Step
  unfolding read_file
  try_file batch_size base indices file =
      except_do (read_file batch_size base indices file)
        (λ e. raise (interface_error "insert_data_bulk"))

  unfoldable pub load_file : Result (List (List Text)) → Text → List ℤ → List Text → ℤ → Step
  unfolding join try_file base_stmt set_style cursor_at natural
  load_file file table indices columns batch_size = do
    cur ← locally (cursor_at cid)
    if not (length columns == length indices)
        then raise (interface_error "Column names and parameter indexes must be the same length")
        else finally_do (try_file (natural batch_size) (base_stmt table columns) indices file)
            (set_style cid cur.paramstyle)

  unfoldable pub insert_data_bulk : Result (List (List Text)) → Text → List ℤ → List Text → ℤ → Step
  unfolding load_file is_valid_table has_valid_columns
  insert_data_bulk file table indices columns batch_size =
      if ltb_ℤ batch_size (pos 1)
      then raise (interface_error "batch_size must be greater than 1")
      else (do
        valid ← is_valid_table table
        if not valid
            then raise (interface_error "Invalid table name passed to insert_data_bulk")
            else (do
              has_valid_columns table columns
              load_file file table indices columns batch_size))
