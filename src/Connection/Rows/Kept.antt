-- ===== src/Connection/Rows/Kept.antt =====
-- Row descriptions and rows keep the connection coherent.
use amazon_redshift_python_d.Prelude.{ℕ, zero, suc, Bool, refl}
use amazon_redshift_python_d.Prelude.Action.{modify}
use amazon_redshift_python_d.Prelude.Keeps.{
  Keeps, modify-Keeps, bind-Keeps, self-Keeps, lift-Keeps, keeping,
}
use amazon_redshift_python_d.Prelude.Text.{Bytes}
use amazon_redshift_python_d.Connection.{Field, Foreign}
use amazon_redshift_python_d.Connection.Coherent.{IsCoherent, Tracked, on_statements-IsCoherent}
use amazon_redshift_python_d.Connection.Rows.{
  append_field, handle_data_row, handle_row_description, read_fields,
}

module _ (T : Tracked) where
  append_field-Keeps :
      (sid : ℕ) (field : Field) → Keeps (IsCoherent T) (modify (append_field sid field))
  unfolding append_field
  append_field-Keeps sid field =
      modify-Keeps (λ c h. on_statements-IsCoherent T sid _ c (λ p. refl) h)

  read_fields-Keeps :
      (sid : ℕ) (extended : Bool) (n : ℕ) (body : Bytes) (idx : ℕ)
      → Keeps (IsCoherent T) (read_fields sid extended n body idx)
  unfolding read_fields
  read_fields-Keeps sid extended zero body idx = search keeping
  read_fields-Keeps sid extended (suc n) body idx =
      search (keeping, append_field-Keeps, read_fields-Keeps sid extended n body) depth 20

  pub handle_row_description-Keeps :
      (cid : ℕ) (body : Bytes) → Keeps (IsCoherent T) (handle_row_description cid body)
  unfolding handle_row_description
  handle_row_description-Keeps cid body = search (keeping, read_fields-Keeps) depth 20

  pub handle_data_row-Keeps :
      (F : Foreign) (cid : ℕ) (body : Bytes) → Keeps (IsCoherent T) (handle_data_row F cid body)
  unfolding handle_data_row IsCoherent
  handle_data_row-Keeps F cid body =
      bind-Keeps self-Keeps (λ c. bind-Keeps (lift-Keeps _) (λ row. modify-Keeps (λ d h. h)))
