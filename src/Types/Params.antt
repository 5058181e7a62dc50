-- ===== src/Types/Params.antt =====
-- redshift_connector/core.py, `inspect_int`: the type that an integer parameter is sent as, with the
-- entries of `py_types` (redshift_connector/utils/type_utils.py) that it chooses from.
use amazon_redshift_python_d.Prelude.{
  ℕ, ◌+◌, ◌<◌, ◌≡◌, ◌^◌, inl, inr, refl, Bool, true, false, ◌++◌, arith, length, if◌then◌else◌,
  Bool-cases,
}
use amazon_redshift_python_d.Prelude.Int.{ℤ, pos, negsuc, pos_part, neg_part, sub_ℕ, ltb_ℤ}
use amazon_redshift_python_d.Prelude.Result.{Result, ok}
use amazon_redshift_python_d.Prelude.Text.{Bytes, str_int}
use amazon_redshift_python_d.Prelude.Text.Utf8.{encode}
use amazon_redshift_python_d.Types.{InFunc, Value, integer, pg_types, type_of, fc_text, fc_binary}
use amazon_redshift_python_d.Types.Recv.{recv_scalar}
use amazon_redshift_python_d.Wire.{Format, h, i, q, half, pack}
use amazon_redshift_python_d.Wire.RoundTrip.{Fits, unpack-pack, pack_iff}

-- The functions of the entries that an integer may get.
pub data SendFunc : Type 0 where
  h_pack i_pack q_pack numeric_out : SendFunc

-- The oid, the format code and the function.
pub record IntType : Type 0 where
  pub oid : ℕ
  pub fc : ℕ
  pub send_func : SendFunc

-- `min < value < max`, with `min` the negative of `max`
abbrev pub within : ℕ → ℤ → Bool
within limit value = if ltb_ℤ (sub_ℕ 0 limit) value then ltb_ℤ value (pos limit) else false

unfoldable pub inspect_int : ℤ → IntType
inspect_int value =
    if within (2 ^ 15) value
    then record { oid = 21; fc = fc_binary; send_func = h_pack }
    else if within (2 ^ 31) value
    then record { oid = 23; fc = fc_binary; send_func = i_pack }
    else if within (2 ^ 63) value
    then record { oid = 20; fc = fc_binary; send_func = q_pack }
    else record { oid = 1700; fc = fc_text; send_func = numeric_out }

unfoldable pub send_int : SendFunc → ℤ → Result Bytes
send_int h_pack value = pack h value
send_int i_pack value = pack i value
send_int q_pack value = pack q value
send_int numeric_out value = encode (str_int value)

module _ (foreign : InFunc → Bytes → Result Value) where
  -- What is sent as a type is read back by the function of that type, wherever it stands.
  pub record ReadsBack (t : IntType) (value : ℤ) (before rest : Bytes) : Type 0 where
    pub sent : Bytes
    pub sends : send_int t.send_func value ≡ ok sent
    pub same_format : (type_of pg_types (pos t.oid)).0 ≡ t.fc
    pub reads :
        recv_scalar foreign
          (type_of pg_types (pos t.oid)).1
          (before ++ (sent ++ rest))
          (length before)
          (length sent)
        ≡ ok (integer value)

  small_back :
      (v : ℤ) (before rest : Bytes)
      → Fits h v
      → ReadsBack (record { oid = 21; fc = fc_binary; send_func = h_pack }) v before rest
  unfolding send_int recv_scalar type_of
  small_back v before rest fits =
      let (bs, packed) = (pack_iff h v).1 fits in
      record {
        sent = bs;
        sends = packed;
        same_format = refl;
        reads = rw (unpack-pack h v before bs rest packed);
      }

  integer_back :
      (v : ℤ) (before rest : Bytes)
      → Fits i v
      → ReadsBack (record { oid = 23; fc = fc_binary; send_func = i_pack }) v before rest
  unfolding send_int recv_scalar type_of
  integer_back v before rest fits =
      let (bs, packed) = (pack_iff i v).1 fits in
      record {
        sent = bs;
        sends = packed;
        same_format = refl;
        reads = rw (unpack-pack i v before bs rest packed);
      }

  big_back :
      (v : ℤ) (before rest : Bytes)
      → Fits q v
      → ReadsBack (record { oid = 20; fc = fc_binary; send_func = q_pack }) v before rest
  unfolding send_int recv_scalar type_of
  big_back v before rest fits =
      let (bs, packed) = (pack_iff q v).1 fits in
      record {
        sent = bs;
        sends = packed;
        same_format = refl;
        reads = rw (unpack-pack q v before bs rest packed);
      }

  within-Fits : (f : Format) (v : ℤ) → within (half f) v ≡ true → Fits f v
  within-Fits f (pos n) e = ground arith
  within-Fits f (negsuc n) e = ground arith

  -- An integer parameter between -2^63 and 2^63, both excluded, is sent as a type whose function
  -- accepts it, and the function of that type in `pg_types` reads the same integer back, in the
  -- format that it was sent in and wherever the bytes stand.
  pub inspect_int-ReadsBack :
      (v : ℤ) (before rest : Bytes)
      → pos_part v + neg_part v < 2 ^ 63
      → ReadsBack (inspect_int v) v before rest
  unfolding inspect_int
  inspect_int-ReadsBack v before rest below = elim (Bool-cases (within (2 ^ 15) v)) [
    | inl small ↦ rw small (small_back v before rest (within-Fits h v small))
    | inr not_small ↦ elim (Bool-cases (within (2 ^ 31) v)) [
      | inl medium ↦ rw (not_small, medium) (integer_back v before rest (within-Fits i v medium))
      | inr not_medium ↦
          rw (not_small, not_medium, big v below)
            (big_back v before rest (within-Fits q v (big v below)))
    ]
  ]
    where
      big : (v : ℤ) → pos_part v + neg_part v < 2 ^ 63 → within (2 ^ 63) v ≡ true
      big (pos n) lt = ground arith
      big (negsuc n) lt = ground arith
