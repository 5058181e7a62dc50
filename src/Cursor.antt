-- ===== src/Cursor.antt =====
-- redshift_connector/cursor.py: `__next__` and the fetch methods, which take rows off the front of
-- `_cached_rows`. `row_desc` is `self.ps["row_desc"]`, missing where `self.ps` is None.
pub mod Fetch
use amazon_redshift_python_d.Prelude.{ℕ, zero, suc, Option, none, some, List, [], ◌∷◌, length}
use amazon_redshift_python_d.Prelude.Int.{ℤ, pos, negsuc}
use amazon_redshift_python_d.Prelude.Result.{ok, err, programming_error, value_error, stuck}
use amazon_redshift_python_d.Prelude.Action.{Action, pure, raise, self, ◌>>=◌}
use amazon_redshift_python_d.Types.{Value}
use amazon_redshift_python_d.Connection.{Cursor, Field}

abbrev pub Row : Type 0
Row = List Value

module _ (row_desc : Option (List Field)) where
  -- `popleft` raised IndexError; `none` is StopIteration.
  exhausted : Option (List Field) → Action Cursor (Option Row)
  exhausted none = raise (programming_error "A query hasn't been issued.")
  exhausted (some []) = raise (programming_error "no result set")
  exhausted (some (f ∷ fs)) = pure none

  pop_left : List Row → Action Cursor (Option Row)
  unfolding exhausted
  pop_left [] = exhausted row_desc
  pop_left (row ∷ rows) = λ cur. (ok (some row), record cur { cached_rows = rows })

  -- __next__
  unfoldable pub next_row : Action Cursor (Option Row)
  unfolding pop_left
  next_row cur = pop_left cur.cached_rows cur

  -- None at the end of the rows.
  unfoldable pub fetchone : Action Cursor (Option Row)
  unfolding next_row
  fetchone = next_row

  -- tuple(islice(self, n))
  unfoldable pub take_rows : ℕ → Action Cursor (List Row)
  unfolding next_row
  take_rows zero = pure []
  take_rows (suc n) = do
    next ← next_row
    elim next [ none ↦ pure [] | some row ↦ do rows ← take_rows n; pure (row ∷ rows) ]

  islice : ℤ → Action Cursor (List Row)
  unfolding take_rows
  islice (pos n) = take_rows n
  islice (negsuc n) = raise value_error

  -- `arraysize` is the attribute of the cursor.
  unfoldable pub fetchmany : ℤ → Option ℤ → Action Cursor (List Row)
  unfolding islice
  fetchmany arraysize none = islice arraysize
  fetchmany arraysize (some num) = islice num

  -- tuple(self): `fuel` calls of `__next__`.
  all_rows : ℕ → Action Cursor (List Row)
  unfolding next_row
  all_rows zero = raise stuck
  all_rows (suc fuel) = do
    next ← next_row
    elim next [ none ↦ pure [] | some row ↦ do rows ← all_rows fuel; pure (row ∷ rows) ]

  unfoldable pub fetchall : Action Cursor (List Row)
  unfolding all_rows
  fetchall cur = all_rows (suc (length cur.cached_rows)) cur
