-- ===== src/Types/Args/Sent.antt =====
-- An array as it is sent, read from its bytes: the lengths in its header and the elements behind it.
use mathlib.Core.List.{append_assoc}
use amazon_redshift_python_d.Prelude.{
  ℕ, zero, suc, ◌≡◌, refl, ap, sym, ◌∙◌, Bool, true, false, ◌⊎◌, inl, inr, List, [], ◌∷◌, ◌++◌,
  if◌then◌else◌, length,
}
use mathlib.Core.Path.{subst}
use amazon_redshift_python_d.Prelude.Int.{ℤ, pos, negsuc}
use amazon_redshift_python_d.Prelude.Result.{
  ok, err, ◌>>=◌, >>=-eq-ok, ok-injective, array_content_not_homogenous,
}
use amazon_redshift_python_d.Prelude.Text.{Bytes}
use amazon_redshift_python_d.Wire.{i, be_bytes, pack, unpack}
use amazon_redshift_python_d.Wire.RoundTrip.{drop_word, length-pack, unpack-pack}
use amazon_redshift_python_d.Prelude.{drop}
use amazon_redshift_python_d.Types.Args.{
  PyValue, PyValues, scalar, list_value, tuple_value, ParamFunc, null_bytes, bool_number,
  send_scalar,
}
use amazon_redshift_python_d.Types.Args.Arrays.{
  array_check_dimensions, array_dim_lengths, array_flatten, array_has_null,
}
use amazon_redshift_python_d.Types.Args.Inspect.{
  is_none, of_type, send_array, send_dims, send_element, send_elements,
}
use amazon_redshift_python_d.Types.Args.Shape.{check-Counted, product, send_elements-Plain}

-- A word of four bytes at the front, and what is behind it.
abbrev pub IsWord : ℤ → Bytes → Bytes → Type 0
IsWord v bs rest = (unpack i bs 0 ≡ ok v) × (drop 4 bs ≡ rest)

-- The lengths, each with the lower bound 1.
pub HasLengths : List ℕ → Bytes → Bytes → Type 0
HasLengths [] bs rest = bs ≡ rest
HasLengths (n ∷ ns) bs rest =
    (lower : Bytes) × (next : Bytes) × IsWord (pos n) bs lower
    × IsWord (pos 1) lower next
    × HasLengths ns next rest

-- So many elements and no more: -1 for None, or the length of a value and the value.
pub HasElements : ℕ → Bytes → Type 0
HasElements zero bs = bs ≡ []
HasElements (suc n) bs =
    (IsWord (negsuc 0) bs (drop 4 bs) × HasElements n (drop 4 bs))
    ⊎ ((value : Bytes) × (next : Bytes) × IsWord (pos (length value)) bs (value ++ next)
        × HasElements n next)

pack-IsWord : (v : ℤ) (w rest : Bytes) → pack i v ≡ ok w → IsWord v (w ++ rest) rest
pack-IsWord v w rest e = (unpack-pack i v [] w rest e, drop_word 4 w rest (length-pack i v w e))

null_packed : pack i (negsuc 0) ≡ ok null_bytes
unfolding pack be_bytes
null_packed = refl

send_dims-HasLengths :
    (ns : List ℕ) (bs rest : Bytes) → send_dims ns ≡ ok bs → HasLengths ns (bs ++ rest) rest
unfolding send_dims HasLengths
send_dims-HasLengths [] bs rest e = ap (λ b. b ++ rest) (sym (ok-injective [] bs e))
send_dims-HasLengths (n ∷ ns) bs rest e =
    let (len, e1, r1) = >>=-eq-ok (pack i (pos n)) _ e in
    let (lower, e2, r2) = >>=-eq-ok (pack i (pos 1)) _ r1 in
    let (more, e3, r3) = >>=-eq-ok (send_dims ns) _ r2 in
    let split : bs ++ rest ≡ len ++ (lower ++ (more ++ rest)) =
      ap (λ b. b ++ rest) (sym (ok-injective (len ++ (lower ++ more)) bs r3))
      ∙ (append_assoc len (lower ++ more) rest
          ∙ ap (λ t. len ++ t) (append_assoc lower more rest)) in
    rw split (
      lower ++ (more ++ rest),
      more ++ rest,
      pack-IsWord (pos n) len (lower ++ (more ++ rest)) e1,
      pack-IsWord (pos 1) lower (more ++ rest) e2,
      send_dims-HasLengths ns more rest e3,
    )

-- One element.
send_element-either :
    (float_micros : ℤ → ℤ) (func : ParamFunc) (v : PyValue) (bs : Bytes)
    → send_element float_micros func v ≡ ok bs
    → (null_bytes ≡ bs)
      ⊎ ((value : Bytes) × (len : Bytes) × (pack i (pos (length value)) ≡ ok len)
          × (len ++ value ≡ bs))
unfolding send_element
send_element-either float_micros func (list_value vs) bs e = cc
send_element-either float_micros func (tuple_value vs) bs e = cc
send_element-either float_micros func (scalar v) bs e = either (is_none v) (of_type func v) bs e
  where
    sent :
        (bs : Bytes)
        → (send_scalar float_micros func v >>= λ value.
            pack i (pos (length value)) >>= λ len. ok (len ++ value))
          ≡ ok bs
        → (value : Bytes) × (len : Bytes) × (pack i (pos (length value)) ≡ ok len)
          × (len ++ value ≡ bs)
    sent bs e =
        let (value, e1, r1) = >>=-eq-ok (send_scalar float_micros func v) _ e in
        let (len, e2, r2) = >>=-eq-ok (pack i (pos (length value))) _ r1 in
        (value, len, e2, ok-injective _ _ r2)

    either :
        (a b : Bool) (bs : Bytes)
        → (if a
            then ok null_bytes
            else if b
            then (send_scalar float_micros func v >>= λ value.
                pack i (pos (length value)) >>= λ len. ok (len ++ value))
            else err array_content_not_homogenous)
          ≡ ok bs
        → (null_bytes ≡ bs)
          ⊎ ((value : Bytes) × (len : Bytes) × (pack i (pos (length value)) ≡ ok len)
              × (len ++ value ≡ bs))
    either true b bs e = inl (ok-injective _ _ e)
    either false true bs e = inr (sent bs e)
    either false false bs e = cc

send_elements-HasElements :
    (float_micros : ℤ → ℤ) (func : ParamFunc) (vs : List PyValue) (bs : Bytes)
    → send_elements float_micros func vs ≡ ok bs
    → HasElements (length vs) bs
unfolding send_elements HasElements
send_elements-HasElements float_micros func [] bs e = sym (ok-injective [] bs e)
send_elements-HasElements float_micros func (v ∷ vs) bs e =
    let (first, e1, r1) = >>=-eq-ok (send_element float_micros func v) _ e in
    let (more, e2, r2) = >>=-eq-ok (send_elements float_micros func vs) _ r1 in
    let rest = send_elements-HasElements float_micros func vs more e2 in
    subst (HasElements (suc (length vs))) (ok-injective (first ++ more) bs r2)
      (elim (send_element-either float_micros func v first e1) [
        | inl null ↦
            subst (λ b. HasElements (suc (length vs)) (b ++ more)) null
              (inl (pack-IsWord (negsuc 0) null_bytes more null_packed, rest))
        | inr (value, len, packed, parts) ↦
            subst (λ b. HasElements (suc (length vs)) (b ++ more)) parts
              (subst (HasElements (suc (length vs))) (sym (append_assoc len value more)) (
                inr
                  (value, more, pack-IsWord (pos (length value)) len (value ++ more) packed, rest)))
      ])

-- An array that is sent, of whatever nesting and type, is well formed: its bytes are the number of the
-- lengths, a word that says whether there is None, the type, each length with the lower bound 1, and
-- then so many elements as the product of these lengths says, each behind its own length, and nothing else.
pub send_array-HasElements :
    (float_micros : ℤ → ℤ) (oid : ℕ) (func : ParamFunc) (arr : PyValues) (bs : Bytes)
    → send_array float_micros oid func arr ≡ ok bs
    → (lengths : List ℕ) × (flags : Bytes) × (typ : Bytes) × (header : Bytes) × (elements : Bytes)
      × IsWord (pos (length lengths)) bs flags
      × IsWord (bool_number (array_has_null arr)) flags typ
      × IsWord (pos oid) typ header
      × HasLengths lengths header elements
      × HasElements (product lengths) elements
unfolding send_array
send_array-HasElements float_micros oid func arr bs e =
    let (ls, checked, r0) = >>=-eq-ok (array_check_dimensions arr) _ e in
    let (dims, e1, r1) = >>=-eq-ok (pack i (pos (length (array_dim_lengths arr)))) _ r0 in
    let (nulls, e2, r2) = >>=-eq-ok (pack i (bool_number (array_has_null arr))) _ r1 in
    let (typ, e3, r3) = >>=-eq-ok (pack i (pos oid)) _ r2 in
    let (lengths, e4, r4) = >>=-eq-ok (send_dims (array_dim_lengths arr)) _ r3 in
    let (elements, e5, r5) = >>=-eq-ok (send_elements float_micros func (array_flatten arr)) _ r4 in
    let (named, counted) =
      check-Counted arr ls checked
        (send_elements-Plain float_micros func (array_flatten arr) elements e5) in
    let number : length (array_flatten arr) ≡ product (array_dim_lengths arr) =
      counted ∙ sym (ap product named) in
    subst
      (λ bs.
        (ns : List ℕ) × (flags : Bytes) × (typ : Bytes) × (header : Bytes) × (elements : Bytes)
        × IsWord (pos (length ns)) bs flags
        × IsWord (bool_number (array_has_null arr)) flags typ
        × IsWord (pos oid) typ header
        × HasLengths ns header elements
        × HasElements (product ns) elements)
      (ok-injective (dims ++ (nulls ++ (typ ++ (lengths ++ elements)))) bs r5)
      (
        array_dim_lengths arr,
        nulls ++ (typ ++ (lengths ++ elements)),
        typ ++ (lengths ++ elements),
        lengths ++ elements,
        elements,
        pack-IsWord _ dims _ e1,
        pack-IsWord _ nulls _ e2,
        pack-IsWord _ typ _ e3,
        send_dims-HasLengths (array_dim_lengths arr) lengths elements e4,
        subst (λ n. HasElements n elements) number
            (send_elements-HasElements float_micros func (array_flatten arr) elements e5),
      )
