-- ===== src/Tests/Columns.antt =====
-- Tests of the column types.
use amazon_redshift_python_d.Prelude.{
  ◌≡◌, ◌≢◌, refl, ◌↔◌, ◌⊎◌, ◌<◌, ◌-◌, ◌^◌, [], ◌∷◌, ◌++◌, arith, true, false,
}
use amazon_redshift_python_d.Prelude.Int.{pos, negsuc, ◌≤ℤ◌}
use amazon_redshift_python_d.Prelude.Result.{ok, err, value_error}
use amazon_redshift_python_d.Prelude.Text.{Bytes}
use amazon_redshift_python_d.Types.{timestamp, timestamptz, decimal, pg_types, type_of}
use amazon_redshift_python_d.Types.Recv.{
  recv_numeric, recv_timestamp, recv_timestamptz, datetime_min, datetime_max,
}
use amazon_redshift_python_d.Types.Protocol.{
  binary, base_server, enable_protocol, enable_protocol_last,
}
use amazon_redshift_python_d.Types.Timestamp.{
  nearest, recv_timestamp-nearest, recv_timestamptz-nearest,
}
use amazon_redshift_python_d.Types.Params.{inspect_int, ReadsBack, inspect_int-ReadsBack}
use amazon_redshift_python_d.Types.Numeric.{of_word_128, numeric_16_iff}
use amazon_redshift_python_d.Wire.{q, unpack, be_value, be_value_from}

abbrev zeros : Bytes
zeros = 0 ∷ 0 ∷ 0 ∷ 0 ∷ 0 ∷ 0 ∷ 0 ∷ 0 ∷ []

abbrev high_bit : Bytes
high_bit = 128 ∷ 0 ∷ 0 ∷ 0 ∷ 0 ∷ 0 ∷ 0 ∷ 0 ∷ []

enable_protocol_last_example :
    type_of (enable_protocol base_server true (enable_protocol binary false pg_types)) (pos 1700)
    ≡ type_of (enable_protocol base_server true pg_types) (pos 1700)
enable_protocol_last_example =
    enable_protocol_last binary base_server false true pg_types (pos 1700)

numeric_16_iff_example :
    (recv_numeric
        (7 ∷ 0 ∷ 0 ∷ 0 ∷ 0 ∷ 0 ∷ 0 ∷ 0 ∷ 0 ∷ 128 ∷ 0 ∷ 0 ∷ 0 ∷ 0 ∷ 0 ∷ 0 ∷ 0 ∷ 9 ∷ [])
        1
        16
        2
      ≡ ok (decimal (of_word_128 (be_value (zeros ++ high_bit))) 2))
    ↔ ((be_value high_bit < 2 ^ 63) ⊎ (be_value zeros ≡ 2 ^ 64 - 1))
numeric_16_iff_example =
    numeric_16_iff (7 ∷ []) zeros high_bit (9 ∷ []) 2 refl refl (ground arith) (ground arith)

-- The largest 64-bit number is after year 9999.
abbrev infinity : Bytes
infinity = 127 ∷ 255 ∷ 255 ∷ 255 ∷ 255 ∷ 255 ∷ 255 ∷ 255 ∷ []

infinity_read : unpack q infinity 0 ≡ ok (pos 9223372036854775807)
unfolding unpack be_value_from
infinity_read = refl

recv_timestamp-nearest_example :
    (recv_timestamp infinity 0 ≡ ok (timestamp (nearest (pos 9223372036854775807))))
    × (datetime_min ≤ℤ nearest (pos 9223372036854775807))
    × (nearest (pos 9223372036854775807) ≤ℤ datetime_max)
recv_timestamp-nearest_example =
    recv_timestamp-nearest infinity 0 (pos 9223372036854775807) infinity_read

recv_timestamptz-nearest_example :
    ((nearest (pos 9223372036854775807) ≡ pos 9223372036854775807)
      × (recv_timestamptz infinity 0 ≡ ok (timestamptz (nearest (pos 9223372036854775807)))))
    ⊎ ((nearest (pos 9223372036854775807) ≢ pos 9223372036854775807)
        × (recv_timestamptz infinity 0 ≡ ok (timestamp (nearest (pos 9223372036854775807)))))
recv_timestamptz-nearest_example =
    recv_timestamptz-nearest infinity 0 (pos 9223372036854775807) infinity_read

inspect_int-ReadsBack_example :
    ReadsBack
      (λ f bs. err value_error)
      (inspect_int (negsuc 32767))
      (negsuc 32767)
      (1 ∷ [])
      (2 ∷ [])
inspect_int-ReadsBack_example =
    inspect_int-ReadsBack (λ f bs. err value_error) (negsuc 32767) (1 ∷ []) (2 ∷ []) (ground arith)
