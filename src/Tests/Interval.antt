-- ===== src/Tests/Interval.antt =====
-- Tests of the class Interval.
use amazon_redshift_python_d.Prelude.{ℕ, ◌≡◌, refl, List, [], ◌∷◌, ◌++◌}
use amazon_redshift_python_d.Prelude.Int.{ℤ, pos, ◌*ℤ◌, ◌+ℤ◌}
use amazon_redshift_python_d.Prelude.Result.{Result, ok}
use amazon_redshift_python_d.Prelude.Text.{Bytes}
use amazon_redshift_python_d.Types.Args as Args
use amazon_redshift_python_d.Types.Args.{
  PyValue, scalar, int_value, str_value, interval_send_integer, pack_interval, send_scalar,
}
use amazon_redshift_python_d.Interval.{
  Attribute, Interval, in_range, interval, interval_recv_integer, new_interval, set_days,
  set_months,
}
use amazon_redshift_python_d.Interval.Bounds.{IsBounded, set_all, set_all-IsBounded}
use amazon_redshift_python_d.Interval.RoundTrip.{interval_recv_integer-interval_send_integer}
use amazon_redshift_python_d.Wire.{be_bytes, pack}
use amazon_redshift_python_d.Tests.Data.{outside_code}

abbrev number : ℕ → PyValue
number n = scalar (int_value (pos n))

abbrev two_months : Interval
two_months = record { microseconds = pos 5; days = pos 1; months = pos 2 }

-- The first is out of the bounds and the second no number.
abbrev sets : List (Attribute × PyValue)
sets =
    (set_days, number 2147483648)
    ∷ (set_months, scalar (str_value []))
    ∷ (set_months, number 7)
    ∷ []

two_months_made : new_interval (number 5) (number 1) (number 2) ≡ ok two_months
unfolding new_interval in_range
two_months_made = refl

set_all-IsBounded_example : IsBounded (set_all sets two_months)
set_all-IsBounded_example =
    set_all-IsBounded (number 5) (number 1) (number 2) two_months sets two_months_made

-- A day and five microseconds, then the days, which are zero, and the months.
abbrev sent_bytes : Bytes
sent_bytes = 0 ∷ 0 ∷ 0 ∷ 20 ∷ 29 ∷ 215 ∷ 96 ∷ 5 ∷ 0 ∷ 0 ∷ 0 ∷ 2 ∷ []

two_months_sent :
    send_scalar outside_code.float_micros interval_send_integer
      (Args.interval (pos 5) (pos 1) (pos 2))
    ≡ ok sent_bytes
unfolding send_scalar pack_interval pack be_bytes ◌+ℤ◌ ◌*ℤ◌
two_months_sent = refl

abbrev to_timedelta : ℤ → ℤ → Result (ℤ × ℤ)
to_timedelta days microseconds = ok (days, microseconds)

interval_recv_integer-interval_send_integer_example :
    interval_recv_integer to_timedelta ((9 ∷ []) ++ (sent_bytes ++ (9 ∷ []))) 1
    ≡ ok (interval (record { microseconds = pos 86400000005; days = pos 0; months = pos 2 }))
unfolding ◌+ℤ◌ ◌*ℤ◌
interval_recv_integer-interval_send_integer_example =
    interval_recv_integer-interval_send_integer to_timedelta outside_code.float_micros (pos 5)
      (pos 1) (pos 2) (9 ∷ []) sent_bytes (9 ∷ []) two_months_sent refl refl refl
