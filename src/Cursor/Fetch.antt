-- ===== src/Cursor/Fetch.antt =====
-- The fetch methods against the list of the rows that the cursor holds.
use amazon_redshift_python_d.Prelude.{
  ℕ, zero, suc, ◌≡◌, refl, none, some, List, [], ◌∷◌, length, take, drop,
}
use amazon_redshift_python_d.Prelude.Int.{ℤ, pos}
use amazon_redshift_python_d.Prelude.Result.{ok, err, programming_error}
use amazon_redshift_python_d.Prelude.Action.{◌>>=◌}
use amazon_redshift_python_d.Connection.{Cursor, Field}
use amazon_redshift_python_d.Cursor.{Row, next_row, take_rows, fetchmany, all_rows, fetchall}

abbrev holding : List Row → Cursor → Cursor
holding rows cur = record cur { cached_rows = rows }

take_rows_lem :
    (f : Field) (fs : List Field) (n : ℕ) (rows : List Row) (cur : Cursor)
    → take_rows (some (f ∷ fs)) n (holding rows cur) ≡ (ok (take n rows), holding (drop n rows) cur)
unfolding take_rows next_row
take_rows_lem f fs zero rows cur = refl
take_rows_lem f fs (suc n) [] cur = refl
take_rows_lem f fs (suc n) (row ∷ rows) cur = rw (take_rows_lem f fs n rows cur)

-- On a cursor with a result set, `fetchmany` with a number of rows that is not negative returns so
-- many of the rows that are left, in their order, or all where there are fewer, and keeps the rest.
pub fetchmany-take :
    (f : Field) (fs : List Field) (arraysize : ℤ) (n : ℕ) (cur : Cursor)
    → fetchmany (some (f ∷ fs)) arraysize (some (pos n)) cur
      ≡ (ok (take n cur.cached_rows), record cur { cached_rows = drop n cur.cached_rows })
unfolding fetchmany
fetchmany-take f fs arraysize n cur = take_rows_lem f fs n cur.cached_rows cur

unissued_lem :
    (rows : List Row) (cur : Cursor)
    → all_rows none (suc (length rows)) (holding rows cur)
      ≡ (err (programming_error "A query hasn't been issued."), holding [] cur)
unfolding all_rows next_row
unissued_lem [] cur = refl
unissued_lem (row ∷ rows) cur = rw (unissued_lem rows cur)

no_columns_lem :
    (rows : List Row) (cur : Cursor)
    → all_rows (some []) (suc (length rows)) (holding rows cur)
      ≡ (err (programming_error "no result set"), holding [] cur)
unfolding all_rows next_row
no_columns_lem [] cur = refl
no_columns_lem (row ∷ rows) cur = rw (no_columns_lem rows cur)

-- On a cursor without a statement, or whose statement has no columns, `fetchall` raises
-- ProgrammingError, and rows that were cached are gone.
pub fetchall-no_result :
    (cur : Cursor)
    → (fetchall none cur
        ≡ (err (programming_error "A query hasn't been issued."), record cur { cached_rows = [] }))
      × (fetchall (some []) cur
          ≡ (err (programming_error "no result set"), record cur { cached_rows = [] }))
unfolding fetchall
fetchall-no_result cur = (unissued_lem cur.cached_rows cur, no_columns_lem cur.cached_rows cur)
