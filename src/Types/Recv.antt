-- ===== src/Types/Recv.antt =====
-- The functions of `pg_types` that read one column value at `data[offset : offset + length]`.
-- `foreign` stands for those that compute with floats, the calendar, `json` or `eval`: they are no
-- part of the model, and it gives what they return or raise on their bytes.
use amazon_redshift_python_d.Prelude.{
  ℕ, zero, suc, ◌+◌, ◌-◌, ◌*◌, ◌^◌, Bool, true, false, ◌&&◌, ◌||◌, none, some, List, [], ◌∷◌, ltb,
  leb, ◌==◌, if◌then◌else◌, get_elem?, take, drop, length,
}
use Prim.Native.Nat.{◌/◌, ◌%◌, bit_or}
use amazon_redshift_python_d.Prelude.Int.{ℤ, pos, negsuc, ltb_ℤ, sub_ℕ}
use amazon_redshift_python_d.Prelude.Result.{
  Result, ok, err, ◌>>=◌, ◌>>◌, index_error, value_error, type_error, malformed_value, stuck,
}
use amazon_redshift_python_d.Prelude.Text.{Bytes, Text, slice, int}
use amazon_redshift_python_d.Prelude.Text.Utf8.{decode}
use amazon_redshift_python_d.Types.{
  InFunc, text_recv, bool_recv, int8_recv, int2_recv, int4_recv, oid_recv, int_in, float4_recv,
  float8_recv, numeric_in_binary, timestamp_recv_integer, timestamptz_recv_integer,
  geographyhex_recv, geometryhex_recv, varbytehex_recv, array_recv_binary, Value, Values, null,
  boolean, integer, string, float_word, double_word, decimal, timestamp, timestamptz, array, nil,
  cons, pg_types, type_of,
}
use amazon_redshift_python_d.Wire.{h, i, q, unpack, unpack_unsigned}

-- data[offset]
abbrev pub byte_at : Bytes → ℕ → Result ℕ
byte_at data_bytes offset = elim (get_elem? data_bytes offset) [
  | none ↦ err index_error
  | some b ↦ ok b
]

-- The scale of a decimal, and the two signed words of a long one: `(hi << 64) | lo`. The bits of a
-- negative `lo` go on without end, so they cover those of `hi << 64`.
unfoldable pub or_words : ℤ → ℤ → ℤ
or_words hi (negsuc lo) = negsuc lo
or_words (pos hi) (pos lo) = pos (hi * 2 ^ 64 + lo)
or_words (negsuc hi) (pos lo) = sub_ℕ lo (suc hi * 2 ^ 64)

-- numeric_in_binary
unfoldable pub recv_numeric : Bytes → ℕ → ℕ → ℕ → Result Value
unfolding or_words
recv_numeric data_bytes offset len scale =
    if len == 8
    then (do raw ← unpack q data_bytes offset; ok (decimal raw scale))
    else if len == 16
    then (do
      hi ← unpack q data_bytes offset
      lo ← unpack q data_bytes (offset + 8)
      ok (decimal (or_words hi lo) scale))
    else err malformed_value

-- Datetime.min and Datetime.max, and EPOCH_SECONDS, in microseconds; the first two count from EPOCH.
abbrev pub before_epoch : ℕ
before_epoch = 63082281600000000

abbrev pub after_epoch : ℕ
after_epoch = 252455615999999999

abbrev pub epoch_micros : ℕ
epoch_micros = 946684800000000

abbrev pub datetime_min : ℤ
datetime_min = sub_ℕ 0 before_epoch

abbrev pub datetime_max : ℤ
datetime_max = pos after_epoch

-- EPOCH + Timedelta(microseconds=micros), which raises OverflowError out of range.
abbrev pub in_datetime_range : ℤ → Bool
in_datetime_range micros =
    if ltb_ℤ micros datetime_min then false else if ltb_ℤ datetime_max micros then false else true

-- The handler of OverflowError.
abbrev pub clamped : ℤ → ℤ
clamped micros = if ltb_ℤ micros (pos epoch_micros) then datetime_min else datetime_max

unfoldable pub recv_timestamp : Bytes → ℕ → Result Value
recv_timestamp data_bytes offset = do
  micros ← unpack q data_bytes offset
  ok (timestamp (if in_datetime_range micros then micros else clamped micros))

-- Out of range the answer is Datetime.min or Datetime.max, which have no time zone.
unfoldable pub recv_timestamptz : Bytes → ℕ → Result Value
recv_timestamptz data_bytes offset = do
  micros ← unpack q data_bytes offset
  ok (if in_datetime_range micros then timestamptz micros else timestamp (clamped micros))

-- hexencoding_lookup_no_case
abbrev pub ascii_invalid_value : ℕ
ascii_invalid_value = 0x7f

unfoldable pub hexencoding_lookup_no_case : ℕ → ℕ
hexencoding_lookup_no_case c =
    if leb 48 c && leb c 57
    then c - 48
    else if leb 65 c && leb c 70
    then c - 55
    else if leb 97 c && leb c 102
    then c - 87
    else ascii_invalid_value

-- bytes.hex(), hexlify
abbrev pub hex_digit : ℕ → ℕ
hex_digit n = if ltb n 10 then 48 + n else 87 + n

unfoldable pub hexlify : Bytes → Text
hexlify [] = []
hexlify (b ∷ bs) = hex_digit (b / 16) ∷ hex_digit (b % 16) ∷ hexlify bs

-- The loop of geometryhex_recv, `n` rounds: the byte of two digits and the error flag. `stage` is
-- compared with the marker of an invalid digit after the shift. The low four bits of `stage` are 0,
-- so `stage | stage2` is a sum but for an invalid second digit, whose bits 4, 5 and 6 may be set in
-- `stage` as well.
unfoldable pub or_stages : ℕ → ℕ → ℕ
or_stages hi lo = bit_or (hi * 16) lo

unfoldable pub hex_pairs : ℕ → Bytes → Bool → Result (Bytes × Bool)
unfolding or_stages hexencoding_lookup_no_case
hex_pairs zero text flag = ok ([], flag)
hex_pairs (suc n) [] flag = err index_error
hex_pairs (suc n) (a ∷ []) flag = err index_error
hex_pairs (suc n) (a ∷ b ∷ rest) flag =
    let hi = hexencoding_lookup_no_case a in
    let lo = hexencoding_lookup_no_case b in
    let flag' = lo == ascii_invalid_value || (hi * 16 == ascii_invalid_value || flag) in
    let more = hex_pairs n rest flag' in
    -- a bytearray holds bytes alone
    if ltb (or_stages hi lo) 256
    then (do (bs, f) ← more; ok (or_stages hi lo ∷ bs, f))
    else err value_error

unfoldable pub recv_geometryhex : Bytes → ℕ → ℕ → Result Value
unfolding hex_pairs hexlify
recv_geometryhex data_bytes idx len =
    let text = slice data_bytes idx (idx + len) in
    if len == 0 then ok (string []) else if len % 2 == 1 then ok (string (hexlify text)) else do
      (bs, flag) ← hex_pairs (len / 2) text false
      ok (string (hexlify (if flag then text else bs)))

-- codecs.decode(_, "hex_codec"), then str: binascii.Error is a ValueError.
unfoldable pub unhex : Bytes → Result Bytes
unfolding hexencoding_lookup_no_case
unhex [] = ok []
unhex (a ∷ []) = err value_error
unhex (a ∷ b ∷ rest) =
    let hi = hexencoding_lookup_no_case a in
    let lo = hexencoding_lookup_no_case b in
    let more = unhex rest in
    if ltb hi 16 && ltb lo 16 then (do bs ← more; ok ((hi * 16 + lo) ∷ bs)) else err value_error

-- `list(map(list, zip(*[iter(values)] * n)))`: groups of `n`, an incomplete last one dropped.
to_values : List Value → Values
to_values [] = nil
to_values (v ∷ vs) = cons v (to_values vs)

unfoldable pub groups : ℕ → ℕ → List Value → List Value
unfolding to_values
groups zero n vs = []
groups (suc fuel) n vs =
    let rest = groups fuel n (drop n vs) in
    if ltb (length vs) n then [] else array (to_values (take n vs)) ∷ rest

reshape : ℤ → List Value → List Value
unfolding groups
reshape (pos zero) vs = []
reshape (pos (suc n)) vs = groups (length vs) (suc n) vs
reshape (negsuc n) vs = []

-- `for length in reversed(dim_lengths[1:])`
reshape_all : List ℤ → List Value → List Value
unfolding reshape
reshape_all [] vs = vs
reshape_all (n ∷ ns) vs = reshape n (reshape_all ns vs)

drop_head : List ℤ → List ℤ
drop_head [] = []
drop_head (n ∷ ns) = ns

dim_lengths : ℕ → Bytes → ℕ → Result (List ℤ)
dim_lengths zero data_bytes idx = ok []
dim_lengths (suc dim) data_bytes idx = do
  n ← unpack i data_bytes idx
  unpack i data_bytes (idx + 4)
  ns ← dim_lengths dim data_bytes (idx + 8)
  ok (n ∷ ns)

-- The elements up to `final_idx`; each takes four bytes at least. A length below -1, which would
-- move `idx` back, is refused here.
element : (Bytes → ℕ → ℕ → Result Value) → Bytes → ℕ → ℤ → Result (Value × ℕ)
element conversion data_bytes idx (negsuc zero) = ok (null, idx)
element conversion data_bytes idx (negsuc (suc n)) = err malformed_value
element conversion data_bytes idx (pos len) = do
  v ← conversion data_bytes idx len
  ok (v, idx + len)

elements : ℕ → (Bytes → ℕ → ℕ → Result Value) → Bytes → ℕ → ℕ → Result (List Value)
unfolding element
elements zero conversion data_bytes idx final_idx = err stuck
elements (suc fuel) conversion data_bytes idx final_idx = elim (ltb idx final_idx) [
  | false ↦ ok []
  | true ↦ do
    len ← unpack i data_bytes idx
    (v, idx') ← element conversion data_bytes (idx + 4) len
    vs ← elements fuel conversion data_bytes idx' final_idx
    ok (v ∷ vs)
]

module _ (foreign : InFunc → Bytes → Result Value) where
  -- The functions of three arguments but for the arrays. numeric_in_binary takes four, and Python
  -- raises TypeError where it is called with three.
  unfoldable pub recv_scalar : InFunc → Bytes → ℕ → ℕ → Result Value
  unfolding recv_timestamp recv_timestamptz recv_geometryhex unhex hexlify
  recv_scalar text_recv d o len = do t ← decode (slice d o (o + len)); ok (string t)
  recv_scalar bool_recv d o len = do b ← byte_at d o; ok (boolean (b == 1))
  recv_scalar int8_recv d o len = do v ← unpack q d o; ok (integer v)
  recv_scalar int4_recv d o len = do v ← unpack i d o; ok (integer v)
  recv_scalar int2_recv d o len = do v ← unpack h d o; ok (integer v)
  recv_scalar oid_recv d o len = do v ← unpack_unsigned d o; ok (integer (pos v))
  recv_scalar int_in d o len = do v ← int (slice d o (o + len)); ok (integer v)
  recv_scalar float4_recv d o len = do v ← unpack_unsigned d o; ok (float_word v)
  recv_scalar float8_recv d o len = do
    hi ← unpack_unsigned d o
    lo ← unpack_unsigned d (o + 4)
    ok (double_word (hi * 2 ^ 32 + lo))
  recv_scalar numeric_in_binary d o len = err type_error
  recv_scalar timestamp_recv_integer d o len = recv_timestamp d o
  recv_scalar timestamptz_recv_integer d o len = recv_timestamptz d o
  recv_scalar geographyhex_recv d o len = ok (string (hexlify (slice d o (o + len))))
  recv_scalar geometryhex_recv d o len = recv_geometryhex d o len
  recv_scalar varbytehex_recv d o len = do
    bs ← unhex (slice d o (o + len))
    t ← decode bs
    ok (string t)
  recv_scalar f d o len = foreign f (slice d o (o + len))

  conversion_of : (InFunc → Bytes → ℕ → ℕ → Result Value) → ℤ → Bytes → ℕ → ℕ → Result Value
  conversion_of recv typeoid = recv (type_of pg_types typeoid).1

  dims : ℤ → ℕ
  dims (pos n) = n
  dims (negsuc n) = 0

  -- array_recv_binary, with what reads the elements.
  unfoldable pub array_with : (InFunc → Bytes → ℕ → ℕ → Result Value) → Bytes → ℕ → ℕ → Result Value
  unfolding conversion_of dims dim_lengths elements reshape_all drop_head to_values
  array_with recv d idx len = do
    dim ← unpack i d idx
    unpack i d (idx + 4)
    typeoid ← unpack i d (idx + 8)
    ns ← dim_lengths (dims dim) d (idx + 12)
    let first = idx + 12 + 8 * dims dim
    vs ← elements (suc len) (conversion_of recv typeoid) d first (idx + len)
    ok (array (to_values (reshape_all (drop_head ns) vs)))

  -- Each nested array starts behind the header of the one around it, so the nesting is at most the
  -- length of the data.
  unfoldable pub recv_from : ℕ → InFunc → Bytes → ℕ → ℕ → Result Value
  unfolding recv_scalar array_with
  recv_from zero f d idx len = err stuck
  recv_from (suc fuel) array_recv_binary d idx len =
      array_with (λ f d' idx' len'. recv_from fuel f d' idx' len') d idx len
  recv_from (suc fuel) f d idx len = recv_scalar f d idx len

  unfoldable pub recv : InFunc → Bytes → ℕ → ℕ → Result Value
  unfolding recv_from
  recv f d idx len = recv_from (suc (length d)) f d idx len
