-- ===== src/Connection/Rows.antt =====
-- redshift_connector/core.py, `handle_ROW_DESCRIPTION` and `handle_DATA_ROW`, and
-- redshift_connector/cursor.py, `truncated_row_desc`. (The source caches the result of
-- `truncated_row_desc` from one statement to the next; the model computes it anew.)
pub mod Kept
use amazon_redshift_python_d.Prelude.{
  update_at, ℕ, zero, suc, ◌+◌, ◌-◌, ◌/◌, ◌%◌, ◌^◌, Bool, true, false, ◌&&◌, Option, none, some,
  List, [], ◌∷◌, ◌++◌, ◌==◌, if◌then◌else◌, length, get_elem?, set,
}
use amazon_redshift_python_d.Prelude.Action.{pure, modify, with_self, with_result, then_do}
use amazon_redshift_python_d.Prelude.Int.{ℤ, pos, negsuc, ltb_ℤ}
use amazon_redshift_python_d.Prelude.Result.{
  Result, ok, err, interface_error, index_error, key_error, malformed_value, type_error, ◌>>=◌,
}
use amazon_redshift_python_d.Prelude.Text.{Bytes, slice, find_from}
use amazon_redshift_python_d.Connection.{Connection, Field, PreparedStatement, Handler, Foreign}
use amazon_redshift_python_d.Types.{InFunc, Value, null, type_of, TypeTable, decimal}
use amazon_redshift_python_d.Types.Protocol.{extended_result_metadata}
use amazon_redshift_python_d.Types.Recv.{recv, recv_numeric}
use amazon_redshift_python_d.Wire.{h, i, unpack}

-- `data[idx : data.find(NULL_BYTE, idx)]`; without a zero byte the slice ends at -1.
text_to_null : Bytes → ℕ → Option ℕ → Bytes
text_to_null body idx (some k) = slice body idx k
text_to_null body idx none = slice body idx (length body - 1)

unfoldable pub c_string : Bytes → ℕ → Bytes
unfolding text_to_null find_from
c_string body idx = text_to_null body idx (find_from 0 body idx)

-- The 16 bits of a word, and bit `k` of them: `(temp >> k) & 0x1`.
abbrev bits : ℤ → ℕ
bits (pos n) = n % 65536
bits (negsuc n) = 65535 - n % 65536

abbrev bit : ℕ → ℕ → ℕ
bit k u = u / 2 ^ k % 2

-- schema_name, table_name, column_name and catalog_name, and the position behind them.
unfoldable pub c_strings : ℕ → Bytes → ℕ → List Bytes × ℕ
unfolding c_string
c_strings zero body idx = ([], idx)
c_strings (suc n) body idx =
    let name = c_string body idx in
    let (names, end) = c_strings n body (idx + length name + 1) in (name ∷ names, end)

-- One field, and the position behind it.
unfoldable pub read_field : Bool → TypeTable → Bytes → ℕ → Result (Field × ℕ)
unfolding c_strings
read_field extended table body idx = do
  let label = c_string body idx
  let at = idx + length label + 1
  table_oid ← unpack i body at
  column_attrnum ← unpack h body (at + 4)
  type_oid ← unpack i body (at + 6)
  type_size ← unpack h body (at + 10)
  type_modifier ← unpack i body (at + 12)
  format ← unpack h body (at + 16)
  let (names, end) = c_strings (if extended then 4 else 0) body (at + 18)
  temp ← (if extended then unpack h body end else ok (pos 0))
  let (fc, func) = type_of table type_oid
  let field : Field = record {
    label = label;
    table_oid = table_oid;
    column_attrnum = column_attrnum;
    type_oid = type_oid;
    type_size = type_size;
    type_modifier = type_modifier;
    format = format;
    names = names;
    nullable = bit 0 (bits temp);
    autoincrement = bit 4 (bits temp);
    read_only = bit 8 (bits temp);
    searchable = bit 12 (bits temp);
    pg8000_fc = fc;
    func = func;
  }
  ok (field, if extended then end + 2 else end)

-- cursor.ps["row_desc"].append(field)
append_field : ℕ → Field → Connection → Connection
append_field sid field c = record c {
  statements =
      update_at sid (λ ps. record ps { row_desc = ps.row_desc ++ (field ∷ []) }) c.statements;
}

-- The fields before a failing one stay appended.
unfoldable pub read_fields : ℕ → Bool → ℕ → Bytes → ℕ → Handler
unfolding append_field
read_fields sid extended zero body idx = pure tt
read_fields sid extended (suc n) body idx = with_self (λ c.
    with_result (read_field extended c.pg_types body idx) (λ field_end.
      then_do (modify (append_field sid field_end.0))
        (read_fields sid extended n body field_end.1)))

count_of : ℤ → ℕ
count_of (pos n) = n
count_of (negsuc n) = 0

-- cursor.ps of a cursor
unfoldable pub statement_of : ℕ → Connection → Option ℕ
statement_of cid c = elim (get_elem? c.cursors cid) [ none ↦ none | some cur ↦ cur.ps ]

described : Option ℕ → Result ℕ
described none = err (interface_error "Cursor is missing prepared statement")
described (some sid) = ok sid

unfoldable pub handle_row_description : ℕ → Bytes → Handler
unfolding described read_fields count_of statement_of
handle_row_description cid body = with_self (λ c.
    with_result (described (statement_of cid c)) (λ sid. with_result (unpack h body 0) (λ count.
      read_fields sid
        (if ltb_ℤ c.client_protocol_version extended_result_metadata then false else true)
        (count_of count) body 2)))

-- The function of a column and, for a binary NUMERIC, its scale.
abbrev pub Reader : Type 0
Reader = InFunc × Option ℕ

-- `(type_modifier - 4) & 0xFFFF`
abbrev pub scale_of : ℤ → ℕ
scale_of (pos n) = (n + 65532) % 65536
scale_of (negsuc n) = (65531 + 65536 - n % 65536) % 65536

abbrev is_minus_one : ℤ → Bool
is_minus_one (pos n) = false
is_minus_one (negsuc n) = n == 0

abbrev is_numeric : ℤ → Bool
is_numeric (pos n) = n == 1700
is_numeric (negsuc n) = false

abbrev is_binary : ℤ → Bool
is_binary (pos n) = n == 2
is_binary (negsuc n) = false

-- truncated_row_desc: `self.ps["input_funcs"][cidx]` for each column.
unfoldable pub readers : ℤ → List Field → List InFunc → Result (List Reader)
readers version [] funcs = ok []
readers version (f ∷ fs) [] = err index_error
readers version (f ∷ fs) (func ∷ funcs) = do
  rest ← readers version fs funcs
  ok (
      (
        func,
        if is_binary version && is_numeric f.type_oid
            then some (if is_minus_one f.type_modifier then 65532 else scale_of f.type_modifier)
            else none,
      )
      ∷ rest)

readers_of : ℤ → PreparedStatement → Result (List Reader)
unfolding readers
readers_of version ps = readers_with ps.input_funcs
  where
    readers_with : Option (List InFunc) → Result (List Reader)
    readers_with none = if length ps.row_desc == 0 then ok [] else err key_error
    readers_with (some funcs) = readers version ps.row_desc funcs

module _ (F : Foreign) where
  to_float : Value → Value
  to_float (decimal raw scale) = F.to_float raw scale
  to_float v = v

  -- The value of a column that is not NULL.
  unfoldable pub read_value : Reader → Bytes → ℕ → ℕ → Result Value
  unfolding to_float
  read_value (InFunc.numeric_in_binary, some scale) body idx len = recv_numeric body idx len scale
  read_value (InFunc.numeric_in_binary, none) body idx len = err index_error
  read_value (InFunc.numeric_to_float_binary, some scale) body idx len = do
    v ← recv_numeric body idx len scale
    ok (to_float v)
  read_value (InFunc.numeric_to_float_binary, none) body idx len = err index_error
  read_value (func, scale) body idx len = recv F.recv func body idx len

  read_column : Reader → Bytes → ℕ → ℤ → Result (Value × ℕ)
  unfolding read_value
  read_column r body idx (negsuc zero) = ok (null, idx)
  read_column r body idx (negsuc (suc n)) = err malformed_value
  read_column r body idx (pos len) = do v ← read_value r body idx len; ok (v, idx + len)

  -- The loop over the columns.
  unfoldable pub read_row : List Reader → Bytes → ℕ → Result (List Value)
  unfolding read_column
  read_row [] body idx = ok []
  read_row (r ∷ rs) body idx = do
    vlen ← unpack i body idx
    (v, end) ← read_column r body (idx + 4) vlen
    vs ← read_row rs body end
    ok (v ∷ vs)

  unfoldable pub row_of : ℕ → Bytes → Connection → Result (List Value)
  unfolding readers_of read_row statement_of
  row_of cid body c = elim (statement_of cid c) [
    | none ↦ err type_error
    | some sid ↦ elim (get_elem? c.statements sid) [
      | none ↦ err type_error
      | some ps ↦ do rs ← readers_of c.client_protocol_version ps; read_row rs body 2
    ]
  ]

  abbrev append_row : ℕ → List Value → Connection → Connection
  append_row cid row c = record c {
    cursors =
        update_at cid (λ cur. record cur { cached_rows = cur.cached_rows ++ (row ∷ []) }) c.cursors;
  }

  unfoldable pub handle_data_row : ℕ → Bytes → Handler
  unfolding row_of
  handle_data_row cid body =
      with_self (λ c. with_result (row_of cid body c) (λ row. modify (append_row cid row)))
