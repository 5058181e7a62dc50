-- ===== src/Connection/Coherent.antt =====
-- What holds of a connection between any two messages.
use amazon_redshift_python_d.Prelude.{
  ℕ, zero, suc, map, ◌≤◌, ◌≡◌, refl, ap, Bool, List, [], ◌∷◌, length, update_at,
}
use amazon_redshift_python_d.Prelude.Int.{ℤ}
use amazon_redshift_python_d.Prelude.Text.{Bytes, Text}
use amazon_redshift_python_d.Connection.{Connection, Caches, PreparedStatement}
use amazon_redshift_python_d.Types.{TypeTable, pg_types, type_of}
use amazon_redshift_python_d.Types.Protocol.{enable_protocol}

-- The conversions are those of the protocol version, and no deque is longer than its `maxlen`.
pub record Coherent (table : TypeTable) (version : ℤ) (numeric_to_float : Bool)
    (notices : List (List (Bytes × Bytes))) (notifications : List (ℤ × Text))
    (parameter_statuses : List (Bytes × Bytes)) : Type 0 where
  pub conversions :
      (oid : ℤ)
      → type_of table oid ≡ type_of (enable_protocol version numeric_to_float pg_types) oid
  pub few_notices : length notices ≤ 100
  pub few_notifications : length notifications ≤ 100
  pub few_parameter_statuses : length parameter_statuses ≤ 100

-- What is asked besides of the caches, the numbers of the prepared statements and the number of them
-- that a cache may hold: the handlers only clear caches, so they keep all that this leaves true.
abbrev pub Tracked : Type 1
Tracked = Caches → List ℕ → ℕ → Type 0

abbrev pub numbers : List PreparedStatement → List ℕ
numbers = map (λ (ps : PreparedStatement). ps.statement_num)

unfoldable pub IsCoherent : Tracked → Connection → Type 0
IsCoherent T c =
    Coherent c.pg_types c.client_protocol_version c.numeric_to_float c.notices c.notifications
      c.parameter_statuses
    × T c.caches (numbers c.statements) c.max_prepared_statements

-- A change of a statement that leaves its number leaves the numbers.
pub numbers-update_at :
    (n : ℕ) (f : PreparedStatement → PreparedStatement) (ps : List PreparedStatement)
    → ((p : PreparedStatement) → (f p).statement_num ≡ p.statement_num)
    → numbers (update_at n f ps) ≡ numbers ps
unfolding update_at
numbers-update_at n f [] same = refl
numbers-update_at zero f (p ∷ ps) same = ap (λ m. m ∷ numbers ps) (same p)
numbers-update_at (suc n) f (p ∷ ps) same =
    ap (λ ms. p.statement_num ∷ ms) (numbers-update_at n f ps same)

-- So does what is tracked of the connection.
pub on_statements-IsCoherent :
    (T : Tracked) (n : ℕ) (f : PreparedStatement → PreparedStatement) (c : Connection)
    → ((p : PreparedStatement) → (f p).statement_num ≡ p.statement_num)
    → IsCoherent T c
    → IsCoherent T (record c { statements = update_at n f c.statements })
unfolding IsCoherent
on_statements-IsCoherent T n f c same (coherent, tracked) =
    (coherent, rw (numbers-update_at n f c.statements same) tracked)
