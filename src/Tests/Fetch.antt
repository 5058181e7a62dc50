-- ===== src/Tests/Fetch.antt =====
-- Tests of the fetch methods.
use amazon_redshift_python_d.Prelude.{◌≡◌, some, none, [], ◌∷◌, take, drop}
use amazon_redshift_python_d.Prelude.Int.{pos, negsuc}
use amazon_redshift_python_d.Prelude.Result.{ok, err, programming_error}
use amazon_redshift_python_d.Prelude.Action.{◌>>=◌}
use amazon_redshift_python_d.Prelude.Text.{codes}
use amazon_redshift_python_d.Types.{InFunc, integer}
use amazon_redshift_python_d.Connection.{Cursor, Field}
use amazon_redshift_python_d.Cursor.{fetchall, fetchmany}
use amazon_redshift_python_d.Cursor.Fetch.{fetchmany-take, fetchall-no_result}
use amazon_redshift_python_d.Tests.Data.{cursor}

abbrev column : Field
column = record {
  label = codes "n";
  table_oid = pos 0;
  column_attrnum = pos 0;
  type_oid = pos 23;
  type_size = pos 4;
  type_modifier = negsuc 0;
  format = pos 1;
  names = [];
  nullable = 1;
  autoincrement = 0;
  read_only = 0;
  searchable = 1;
  pg8000_fc = 1;
  func = InFunc.int4_recv;
}

abbrev three_rows : Cursor
three_rows = record cursor {
  cached_rows = (integer (pos 1) ∷ []) ∷ (integer (pos 2) ∷ []) ∷ (integer (pos 3) ∷ []) ∷ [];
}

fetchmany-take_example : fetchmany (some (column ∷ [])) (pos 1) (some (pos 2)) three_rows ≡ (
  ok (take 2 three_rows.cached_rows),
  record three_rows { cached_rows = drop 2 three_rows.cached_rows },
)
fetchmany-take_example = fetchmany-take column [] (pos 1) 2 three_rows

fetchall-no_result_example :
    (fetchall none three_rows ≡ (
      err (programming_error "A query hasn't been issued."),
      record three_rows { cached_rows = [] },
    ))
    × (fetchall (some []) three_rows
        ≡ (err (programming_error "no result set"), record three_rows { cached_rows = [] }))
fetchall-no_result_example = fetchall-no_result three_rows
