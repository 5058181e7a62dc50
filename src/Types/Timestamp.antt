-- ===== src/Types/Timestamp.antt =====
-- timestamp_recv_integer and timestamptz_recv_integer where the microseconds are out of range.
use amazon_redshift_python_d.Prelude.{ℕ, ◌≡◌, ◌≢◌, ◌⊎◌, inl, inr, Bool-cases, arith, if◌then◌else◌}
use amazon_redshift_python_d.Prelude.Int.{ℤ, pos, negsuc, ◌≤ℤ◌, ltb_ℤ}
use amazon_redshift_python_d.Prelude.Result.{ok}
use amazon_redshift_python_d.Prelude.Text.{Bytes}
use amazon_redshift_python_d.Types.{timestamp, timestamptz}
use amazon_redshift_python_d.Types.Recv.{
  datetime_min, datetime_max, recv_timestamp, recv_timestamptz, in_datetime_range,
}
use amazon_redshift_python_d.Wire.{q, unpack}

-- The nearest instant that a datetime can hold.
abbrev pub nearest : ℤ → ℤ
nearest micros =
    if ltb_ℤ micros datetime_min
    then datetime_min
    else if ltb_ℤ datetime_max micros
    then datetime_max
    else micros

-- A timestamp is read as the nearest instant that a datetime can hold, and that is in the range of
-- datetimes, whatever 64-bit number the server sent.
pub recv_timestamp-nearest :
    (data_bytes : Bytes) (offset : ℕ) (micros : ℤ)
    → unpack q data_bytes offset ≡ ok micros
    → (recv_timestamp data_bytes offset ≡ ok (timestamp (nearest micros)))
      × (datetime_min ≤ℤ nearest micros)
      × (nearest micros ≤ℤ datetime_max)
unfolding recv_timestamp
recv_timestamp-nearest data_bytes offset (pos m) read =
    (rw read (ground arith), ground arith, ground arith)
recv_timestamp-nearest data_bytes offset (negsuc m) read =
    (rw read (ground arith), ground arith, ground arith)

-- A timestamptz is read as the nearest instant that a datetime can hold as well: with its time zone if
-- that is the instant that was sent, and as a timestamp without a zone if it is another.
pub recv_timestamptz-nearest :
    (data_bytes : Bytes) (offset : ℕ) (micros : ℤ)
    → unpack q data_bytes offset ≡ ok micros
    → ((nearest micros ≡ micros)
        × (recv_timestamptz data_bytes offset ≡ ok (timestamptz (nearest micros))))
      ⊎ ((nearest micros ≢ micros)
          × (recv_timestamptz data_bytes offset ≡ ok (timestamp (nearest micros))))
unfolding recv_timestamptz
recv_timestamptz-nearest data_bytes offset (pos m) read =
    rw read (elim (Bool-cases (in_datetime_range (pos m))) [
      | inl inside ↦ inl (ground arith, ground arith)
      | inr outside ↦ inr (ground arith, ground arith)
    ])
recv_timestamptz-nearest data_bytes offset (negsuc m) read =
    rw read (elim (Bool-cases (in_datetime_range (negsuc m))) [
      | inl inside ↦ inl (ground arith, ground arith)
      | inr outside ↦ inr (ground arith, ground arith)
    ])
