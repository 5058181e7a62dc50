-- ===== src/Interval/RoundTrip.antt =====
-- An Interval that is sent as a parameter, and read back.
use mathlib.Core.List.{append_assoc}
use amazon_redshift_python_d.Prelude.{
  ℕ, ◌+◌, ◌≡◌, refl, true, false, ◌++◌, arith, length, length-append,
}
use amazon_redshift_python_d.Prelude.Int.{ℤ, pos, negsuc}
use amazon_redshift_python_d.Prelude.Result.{Result, ok, >>=-eq-ok, ok-injective}
use amazon_redshift_python_d.Prelude.Text.{Bytes}
use amazon_redshift_python_d.Types.Args as Args
use amazon_redshift_python_d.Types.Args.{
  interval_send_integer, interval_total, send_scalar, pack_interval, scalar, int_value,
}
use amazon_redshift_python_d.Types.Params.{within}
use amazon_redshift_python_d.Interval.{
  interval, in_range, interval_recv_integer, is_zero, max_int4, max_int8, new_interval,
}
use amazon_redshift_python_d.Wire.{Format, h, q, pack, unpack}
use amazon_redshift_python_d.Wire.RoundTrip.{Fits, length-pack, pack_iff, unpack-pack}

Fits-within : (v : ℤ) → Fits h v → within max_int4 v ≡ true
Fits-within (pos n) e = ground arith
Fits-within (negsuc n) e = ground arith

-- A word that is read where it stands in a buffer.
unpack-at :
    (f : Format) (v : ℤ) (k : ℕ) (buffer before bs rest : Bytes)
    → pack f v ≡ ok bs
    → buffer ≡ before ++ (bs ++ rest)
    → length before ≡ k
    → unpack f buffer k ≡ ok v
unpack-at f v k buffer before bs rest e p l = rw (p, ← l) (unpack-pack f v before bs rest e)

-- The three words of an interval, where they stand.
words-back :
    (micros months : ℤ) (before bs rest : Bytes)
    → pack_interval micros months ≡ ok bs
    → (unpack q (before ++ (bs ++ rest)) (length before) ≡ ok micros)
      × (unpack h (before ++ (bs ++ rest)) (length before + 8) ≡ ok (pos 0))
      × (unpack h (before ++ (bs ++ rest)) (length before + 10) ≡ ok months)
      × Fits h months
unfolding pack_interval
words-back micros months before bs rest e =
    let (m, e1, r1) = >>=-eq-ok (pack q micros) _ e in
    let (d, e2, r2) = >>=-eq-ok (pack h (pos 0)) _ r1 in
    let (n, e3, r3) = >>=-eq-ok (pack h months) _ r2 in
    let parts : m ++ (d ++ n) ≡ bs = ok-injective (m ++ (d ++ n)) bs r3 in
    let eight : length m ≡ 8 = length-pack q micros m e1 in
    let two : length d ≡ 2 = length-pack h (pos 0) d e2 in
    (
      unpack-at q micros (length before) _ before m ((d ++ n) ++ rest) e1
          (rw (← parts, append_assoc m (d ++ n) rest) refl) refl,
      unpack-at h (pos 0) (length before + 8) _ (before ++ m) d (n ++ rest) e2
          (rw (← parts) (simp (append_assoc) refl)) (omega (arith, length-append before m, eight)),
      unpack-at h months (length before + 10) _ (before ++ (m ++ d)) n rest e3
          (rw (← parts) (simp (append_assoc) refl))
          (omega (arith, length-append before (m ++ d), length-append m d, eight, two)),
      (pack_iff h months).0 (n, e3),
    )

new_interval-within :
    (micros months : ℤ)
    → within max_int8 micros ≡ true
    → within max_int4 months ≡ true
    → new_interval
        (scalar (int_value micros))
        (scalar (int_value (pos 0)))
        (scalar (int_value months))
      ≡ ok (record { microseconds = micros; days = pos 0; months = months })
unfolding new_interval in_range
new_interval-within micros months small few = rw (small, few) refl

-- An Interval with months that could be sent as a parameter is read back with the same months and no
-- days, the days being among the microseconds, if these are between -2^63 and 2^63, both excluded, and
-- the floats that they go through give their number exactly.
pub interval_recv_integer-interval_send_integer :
    {T : Type 0} (to_timedelta : ℤ → ℤ → Result T) (float_micros : ℤ → ℤ) (micros days months : ℤ)
    (before bs rest : Bytes)
    → send_scalar float_micros interval_send_integer (Args.interval micros days months) ≡ ok bs
    → is_zero months ≡ false
    → within max_int8 (interval_total micros days) ≡ true
    → float_micros (interval_total micros days) ≡ interval_total micros days
    → interval_recv_integer to_timedelta (before ++ (bs ++ rest)) (length before)
      ≡ ok (
          interval
            (record { microseconds = interval_total micros days; days = pos 0; months = months }))
unfolding send_scalar interval_recv_integer
interval_recv_integer-interval_send_integer to_timedelta float_micros micros days months before bs
      rest sent some_months small exact =
    let (w1, w2, w3, fits) =
      words-back (interval_total micros days) months before bs rest (rw (← exact) sent) in
    rw
      (
        w1,
        w2,
        w3,
        some_months,
        new_interval-within (interval_total micros days) months small (Fits-within months fits),
      )
      refl
