-- ===== src/Types/Protocol.antt =====
-- redshift_connector/core.py, `_enable_protocol_based_conversion_funcs`: the entries of `pg_types`
-- that depend on the transfer protocol.
use amazon_redshift_python_d.Prelude.{
  ℕ, ◌≡◌, ◌∙◌, ap, inl, inr, refl, Bool, true, false, ◌||◌, List, [], ◌∷◌, arith, ◌==◌,
  if◌then◌else◌, Bool-cases,
}
use amazon_redshift_python_d.Prelude.Int.{ℤ, pos, negsuc, ltb_ℤ}
use amazon_redshift_python_d.Types.{
  InFunc, TypeTable, Entry, fc_text, fc_binary, type_entry, type_of, set_type,
}

-- ClientProtocolVersion
abbrev pub base_server : ℤ
base_server = pos 0

abbrev pub extended_result_metadata : ℤ
extended_result_metadata = pos 1

abbrev pub binary : ℤ
binary = pos 2

-- The assignments of the branch, in their order.
unfoldable pub set_types : List (ℕ × Entry) → TypeTable → TypeTable
unfolding set_type
set_types [] table = table
set_types ((oid, e) ∷ rest) table = set_types rest (set_type oid e table)

abbrev pub binary_entries : Bool → List (ℕ × Entry)
binary_entries numeric_to_float =
    (1700, (fc_binary, InFunc.numeric_in_binary))
    ∷ (1082, (fc_binary, InFunc.date_recv_binary))
    ∷ (3001, (fc_binary, InFunc.geographyhex_recv))
    ∷ (1083, (fc_binary, InFunc.time_recv_binary))
    ∷ (1266, (fc_binary, InFunc.timetz_recv_binary))
    ∷ (1002, (fc_binary, InFunc.array_recv_binary))
    ∷ (1005, (fc_binary, InFunc.array_recv_binary))
    ∷ (1007, (fc_binary, InFunc.array_recv_binary))
    ∷ (1009, (fc_binary, InFunc.array_recv_binary))
    ∷ (1015, (fc_binary, InFunc.array_recv_binary))
    ∷ (1021, (fc_binary, InFunc.array_recv_binary))
    ∷ (1028, (fc_binary, InFunc.array_recv_binary))
    ∷ (1034, (fc_binary, InFunc.array_recv_binary))
    ∷ (6551, (fc_text, InFunc.text_recv))
    ∷ (if numeric_to_float then (1700, (fc_binary, InFunc.numeric_to_float_binary)) ∷ [] else [])

abbrev pub text_entries : Bool → List (ℕ × Entry)
text_entries numeric_to_float =
    (1700, (fc_text, InFunc.numeric_in))
    ∷ (1083, (fc_text, InFunc.time_in))
    ∷ (1082, (fc_text, InFunc.date_in))
    ∷ (3001, (fc_text, InFunc.text_recv))
    ∷ (1266, (fc_binary, InFunc.timetz_recv_binary))
    ∷ (1002, (fc_text, InFunc.array_recv_text))
    ∷ (1005, (fc_text, InFunc.int_array_recv))
    ∷ (1007, (fc_text, InFunc.int_array_recv))
    ∷ (1009, (fc_text, InFunc.array_recv_text))
    ∷ (1015, (fc_text, InFunc.array_recv_text))
    ∷ (1021, (fc_text, InFunc.float_array_recv))
    ∷ (1028, (fc_text, InFunc.int_array_recv))
    ∷ (1034, (fc_text, InFunc.array_recv_text))
    ∷ (6551, (fc_text, InFunc.varbytehex_recv))
    ∷ (if numeric_to_float then (1700, (fc_text, InFunc.numeric_to_float_in)) ∷ [] else [])

unfoldable pub enable_protocol : ℤ → Bool → TypeTable → TypeTable
unfolding set_types
enable_protocol version numeric_to_float table =
    if ltb_ℤ version binary
    then set_types (text_entries numeric_to_float) table
    else set_types (binary_entries numeric_to_float) table

-- One assignment: the entry of its oid, and no other.
type_entry-set_type :
    (oid k : ℕ) (e : Entry) (table : TypeTable)
    → type_entry (set_type oid e table) k ≡ (if oid == k then e else type_entry table k)
unfolding type_entry set_type
type_entry-set_type oid k e [] = refl
type_entry-set_type oid k e ((j, d) ∷ table) = ground (arith, type_entry-set_type oid k e table)

-- The last assignment to an oid among some, if there is one.
abbrev pub assigned : List (ℕ × Entry) → ℕ → Entry → Entry
assigned [] k d = d
assigned ((oid, e) ∷ rest) k d = assigned rest k (if oid == k then e else d)

pub type_entry-set_types :
    (es : List (ℕ × Entry)) (table : TypeTable) (k : ℕ)
    → type_entry (set_types es table) k ≡ assigned es k (type_entry table k)
unfolding set_types
type_entry-set_types [] table k = refl
type_entry-set_types ((oid, e) ∷ rest) table k =
    rw (type_entry-set_types rest (set_type oid e table) k, type_entry-set_type)

has : ℕ → List (ℕ × Entry) → Bool
has k [] = false
has k ((oid, e) ∷ rest) = oid == k || has k rest

assigned_in :
    (k : ℕ) (es : List (ℕ × Entry)) (d d' : Entry)
    → has k es ≡ true
    → assigned es k d ≡ assigned es k d'
unfolding has
assigned_in k [] d d' e = cc
assigned_in k ((oid, x) ∷ rest) d d' e = elim (Bool-cases (oid == k)) [
  | inl here ↦ rw here
  | inr there ↦ rw there (assigned_in k rest d d' (ground arith))
]

assigned_out : (k : ℕ) (es : List (ℕ × Entry)) (d : Entry) → has k es ≡ false → assigned es k d ≡ d
unfolding has
assigned_out k [] d e = refl
assigned_out k ((oid, x) ∷ rest) d e = elim (Bool-cases (oid == k)) [
  | inl here ↦ ground arith
  | inr there ↦ rw there (assigned_out k rest d (ground arith))
]

-- The entries that the branch of a version assigns.
abbrev pub entries : ℤ → Bool → List (ℕ × Entry)
entries version f = if ltb_ℤ version binary then text_entries f else binary_entries f

enable_protocol_lem :
    (version : ℤ) (f : Bool) (table : TypeTable)
    → enable_protocol version f table ≡ set_types (entries version f) table
enable_protocol_lem version f table =
    unfold enable_protocol in
    (elim (Bool-cases (ltb_ℤ version binary)) [ inl e ↦ rw e | inr e ↦ rw e ])

has_text : (k : ℕ) (f : Bool) → has k (text_entries f) ≡ has k (text_entries false)
unfolding has
has_text k true = ground arith
has_text k false = refl

has_binary : (k : ℕ) (f : Bool) → has k (binary_entries f) ≡ has k (text_entries false)
unfolding has
has_binary k true = ground arith
has_binary k false = ground arith

-- Both branches assign the same oids.
has-entries : (k : ℕ) (v : ℤ) (f : Bool) → has k (entries v f) ≡ has k (text_entries false)
has-entries k v f = elim (Bool-cases (ltb_ℤ v binary)) [
  | inl e ↦ rw e (has_text k f)
  | inr e ↦ rw e (has_binary k f)
]

-- However the protocol version changed before, the table after a change is the one that the new
-- version alone gives, at every oid: no entry of the earlier version is left over.
pub enable_protocol_last :
    (v w : ℤ) (f g : Bool) (table : TypeTable) (oid : ℤ)
    → type_of (enable_protocol w g (enable_protocol v f table)) oid
      ≡ type_of (enable_protocol w g table) oid
unfolding type_of
enable_protocol_last v w f g table (negsuc k) = refl
enable_protocol_last v w f g table (pos k) =
    rw
      (
        enable_protocol_lem v f table,
        enable_protocol_lem w g table,
        enable_protocol_lem w g (set_types (entries v f) table),
        type_entry-set_types (entries w g) (set_types (entries v f) table) k,
        type_entry-set_types (entries w g) table k,
        type_entry-set_types (entries v f) table k,
      )
      (elim (Bool-cases (has k (text_entries false))) [
        | inl e ↦ assigned_in k (entries w g) _ _ (has-entries k w g ∙ e)
        | inr e ↦
            ap (λ d. assigned (entries w g) k d)
              (assigned_out k (entries v f) (type_entry table k) (has-entries k v f ∙ e))
      ])

-- The table after a change depends on the table before it oid by oid.
pub enable_protocol-cong :
    (v : ℤ) (f : Bool) (table table' : TypeTable) (oid : ℤ)
    → type_of table oid ≡ type_of table' oid
    → type_of (enable_protocol v f table) oid ≡ type_of (enable_protocol v f table') oid
unfolding type_of
enable_protocol-cong v f table table' (negsuc k) same = refl
enable_protocol-cong v f table table' (pos k) same =
    rw
      (
        enable_protocol_lem v f table,
        enable_protocol_lem v f table',
        type_entry-set_types (entries v f) table k,
        type_entry-set_types (entries v f) table' k,
      )
      (ap (assigned (entries v f) k) same)
