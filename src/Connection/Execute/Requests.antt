-- ===== src/Connection/Execute/Requests.antt =====
-- redshift_connector/core.py, `Connection.execute`: what it computes away from the state: the arguments,
-- the keys of the caches and the bodies of Parse and Bind.
use amazon_redshift_python_d.Prelude.{
  ℕ, Bool, true, false, ◌&&◌, Option, none, some, List, [], ◌∷◌, ◌++◌, ◌==◌, if◌then◌else◌, length,
}
use amazon_redshift_python_d.Prelude.Int.{ℤ, pos, negsuc}
use amazon_redshift_python_d.Prelude.Result.{Result, ok, err, ◌>>=◌, key_error, type_error}
use amazon_redshift_python_d.Prelude.Dict.{dict_get}
use amazon_redshift_python_d.Prelude.Text.{Bytes, Text, text_eq, codes, decimal}
use amazon_redshift_python_d.Prelude.Text.Utf8.{encode}
use amazon_redshift_python_d.Paramstyle.{MakeArgs, pass, by_name}
use amazon_redshift_python_d.Types.Params.{SendFunc, h_pack, i_pack, q_pack, numeric_out}
use amazon_redshift_python_d.Types.Args.{
  PyValue, scalar, none_value, str_value, Param, ParamFunc, int_func, null_send, bool_send, d_pack,
  text_out, enum_out, varbyte_send, date_out, time_out, timestamp_send_integer,
  timestamptz_send_integer, interval_send_integer, null_bytes,
}
use amazon_redshift_python_d.Types.Args.Inspect.{send_param}
use amazon_redshift_python_d.Wire.{h, i, pack}

-- `vals`: None, a sequence or a mapping.
pub data Vals : Type 0 where
  no_vals : Vals
  sequence : List PyValue → Vals
  mapping : List (Text × PyValue) → Vals

keys : List (Text × PyValue) → List PyValue
keys [] = []
keys ((k, v) ∷ d) = scalar (str_value k) ∷ keys d

-- `vals[p]` for each placeholder
look_up : List Text → Vals → Result (List PyValue)
unfolding dict_get
look_up [] vals = ok []
look_up (p ∷ ps) (mapping d) = elim (dict_get p d) [
  | none ↦ err key_error
  | some v ↦ do vs ← look_up ps (mapping d); ok (v ∷ vs)
]
look_up (p ∷ ps) vals = err type_error

-- A mapping that goes through is a sequence of its keys.
unfoldable pub make_args : MakeArgs → Vals → Result (List PyValue)
unfolding keys look_up
make_args pass no_vals = ok []
make_args pass (sequence vs) = ok vs
make_args pass (mapping d) = ok (keys d)
make_args (by_name names) vals = look_up names vals

-- Functions are equal where they are the same object: each call of array_inspect makes a new one.
send_func_id : SendFunc → ℕ
send_func_id h_pack = 0
send_func_id i_pack = 1
send_func_id q_pack = 2
send_func_id numeric_out = 3

func_id : ParamFunc → Option ℕ
unfolding send_func_id
func_id (int_func f) = some (send_func_id f)
func_id null_send = some 4
func_id bool_send = some 5
func_id d_pack = some 6
func_id text_out = some 7
func_id enum_out = some 8
func_id varbyte_send = some 9
func_id date_out = some 10
func_id time_out = some 11
func_id timestamp_send_integer = some 12
func_id timestamptz_send_integer = some 13
func_id interval_send_integer = some 14
func_id f = none

same_id : Option ℕ → Option ℕ → Bool
same_id (some m) (some n) = m == n
same_id a b = false

same_oid : ℤ → ℤ → Bool
same_oid (pos m) (pos n) = m == n
same_oid (negsuc m) (negsuc n) = m == n
same_oid a b = false

unfoldable pub params_eq : List Param → List Param → Bool
unfolding same_id same_oid func_id
params_eq [] [] = true
params_eq [] (q ∷ qs) = false
params_eq (p ∷ ps) [] = false
params_eq (p ∷ ps) (q ∷ qs) =
    same_oid p.oid q.oid
    && p.fc == q.fc
    && same_id (func_id p.func) (func_id q.func)
    && params_eq ps qs

-- cache["ps"][operation, params]
unfoldable pub find_ps : Text × List Param → List ((Text × List Param) × ℕ) → Option ℕ
unfolding params_eq text_eq
find_ps key [] = none
find_ps key ((k, sid) ∷ rest) =
    if text_eq k.0 key.0 && params_eq k.1 key.1 then some sid else find_ps key rest

-- "redshift_connector_statement_<pid>_<num>" and a zero byte
unfoldable pub statement_name : ℕ → ℕ → Bytes
statement_name pid num =
    codes "redshift_connector_statement_" ++ (decimal pid ++ (b'_' ∷ (decimal num ++ (0 ∷ []))))

-- `705 if oid == -1 else oid`
parse_oid : ℤ → ℤ
parse_oid (pos n) = pos n
parse_oid (negsuc n) = if n == 0 then pos 705 else negsuc n

parse_oids : List Param → Result Bytes
unfolding parse_oid
parse_oids [] = ok []
parse_oids (p ∷ ps) = do oid ← pack i (parse_oid p.oid); rest ← parse_oids ps; ok (oid ++ rest)

unfoldable pub parse_body : Bytes → Text → List Param → Result Bytes
unfolding parse_oids
parse_body name statement params = do
  text ← encode statement
  n ← pack h (pos (length params))
  oids ← parse_oids params
  ok (name ++ (text ++ (0 ∷ (n ++ oids))))

-- pack("!" + "h" * len(fcs), *fcs)
pack_fcs : List ℕ → Result Bytes
pack_fcs [] = ok []
pack_fcs (fc ∷ fcs) = do first ← pack h (pos fc); rest ← pack_fcs fcs; ok (first ++ rest)

unfoldable pub bind_1 : Bytes → List ℕ → Result Bytes
unfolding pack_fcs
bind_1 name fcs = do
  n ← pack h (pos (length fcs))
  packed ← pack_fcs fcs
  ok (0 ∷ (name ++ (n ++ (packed ++ n))))

unfoldable pub bind_2 : List ℕ → Result Bytes
unfolding pack_fcs
bind_2 fcs = do n ← pack h (pos (length fcs)); packed ← pack_fcs fcs; ok (n ++ packed)

-- The values, each behind its length; None is the length -1 alone.
unfoldable pub bind_values : (ℤ → ℤ) → List PyValue → List ParamFunc → Result Bytes
bind_values float_micros [] funcs = ok []
bind_values float_micros (v ∷ vs) [] = ok []
bind_values float_micros (scalar none_value ∷ vs) (f ∷ fs) = do
  rest ← bind_values float_micros vs fs
  ok (null_bytes ++ rest)
bind_values float_micros (v ∷ vs) (f ∷ fs) = do
  val ← send_param float_micros f v
  len ← pack i (pos (length val))
  rest ← bind_values float_micros vs fs
  ok (len ++ (val ++ rest))
