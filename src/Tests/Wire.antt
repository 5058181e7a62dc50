-- ===== src/Tests/Wire.antt =====
-- Tests of the wire format.
use amazon_redshift_python_d.Prelude.{ℕ, ◌≡◌, refl, [], ◌∷◌, take, drop}
use amazon_redshift_python_d.Prelude.Int.{pos}
use amazon_redshift_python_d.Prelude.Result.{ok}
use amazon_redshift_python_d.Wire.{pack, create_message, ci_unpack, be_bytes}
use amazon_redshift_python_d.Wire.RoundTrip.{ci_unpack-create_message}

ci_unpack-create_message_example :
    (ci_unpack (take 5 (b'Q' ∷ 0 ∷ 0 ∷ 0 ∷ 6 ∷ 1 ∷ 2 ∷ 3 ∷ [])) ≡ ok (b'Q', pos 6))
    × (drop {A = ℕ} 5 (b'Q' ∷ 0 ∷ 0 ∷ 0 ∷ 6 ∷ 1 ∷ 2 ∷ 3 ∷ []) ≡ 1 ∷ 2 ∷ 3 ∷ [])
unfolding create_message pack be_bytes
ci_unpack-create_message_example =
    ci_unpack-create_message b'Q' (1 ∷ 2 ∷ []) (b'Q' ∷ 0 ∷ 0 ∷ 0 ∷ 6 ∷ 1 ∷ 2 ∷ []) (3 ∷ []) framed
  where
    framed : create_message b'Q' (1 ∷ 2 ∷ []) ≡ ok (b'Q' ∷ 0 ∷ 0 ∷ 0 ∷ 6 ∷ 1 ∷ 2 ∷ [])
    framed = refl
