-- ===== src/Connection.antt =====
-- redshift_connector/core.py, class `Connection`: its state, with the cursors and the prepared
-- statements that it shares. Objects are numbers into the lists that hold them. Everything the
-- driver writes is appended to `output`.
pub mod Coherent
pub mod Sending
pub mod Auth
pub mod Status
pub mod Rows
pub mod Copy
pub mod Messages
pub mod Execute
use amazon_redshift_python_d.Prelude.{ℕ, Bool, Option, List, [], ◌∷◌}
use amazon_redshift_python_d.Prelude.Int.{ℤ}
use amazon_redshift_python_d.Prelude.Result.{Exception, Result}
use amazon_redshift_python_d.Prelude.Action.{Action}
use amazon_redshift_python_d.Prelude.Text.{Bytes, Text}
use amazon_redshift_python_d.Types.{InFunc, Value, TypeTable}
use amazon_redshift_python_d.Types.Args.{PyValue, Param, ParamFunc}
use amazon_redshift_python_d.Paramstyle.{Style, MakeArgs}

-- A field of a row description.
pub record Field : Type 0 where
  pub label : Bytes
  pub table_oid : ℤ
  pub column_attrnum : ℤ
  pub type_oid : ℤ
  pub type_size : ℤ
  pub type_modifier : ℤ
  pub format : ℤ
  -- schema, table, column and catalog name, and the flags, with EXTENDED_RESULT_METADATA
  pub names : List Bytes
  pub nullable : ℕ
  pub autoincrement : ℕ
  pub read_only : ℕ
  pub searchable : ℕ
  pub pg8000_fc : ℕ
  pub func : InFunc

-- The dict `ps`; `input_funcs` is missing until the statement has been described.
pub record PreparedStatement : Type 0 where
  pub statement_name_bin : Bytes
  pub pid : ℕ
  pub statement_num : ℕ
  pub row_desc : List Field
  pub param_funcs : List ParamFunc
  pub input_funcs : Option (List InFunc)
  pub bind_1 : Bytes
  pub bind_2 : Bytes

-- A file-like object: the results of the calls of `readinto` to come, and what was written.
pub record Stream : Type 0 where
  pub incoming : List Bytes
  pub written : Bytes

-- The attribute `stream` of a cursor, which Cursor.execute sets.
pub data StreamAttribute : Type 0 where
  missing no_stream : StreamAttribute
  open_stream : Stream → StreamAttribute

pub record Cursor : Type 0 where
  pub ps : Option ℕ
  pub row_count : ℤ
  pub redshift_row_count : ℤ
  pub cached_rows : List (List Value)
  pub paramstyle : Style
  pub stream : StreamAttribute
  -- whether `_c` is a connection: `close` sets it to None
  pub attached : Bool

-- {"statement": …, "ps": …}; the keys of "ps" are the operation and the parameters.
pub record Cache : Type 0 where
  pub statement : List (Text × (Text × MakeArgs))
  pub ps : List ((Text × List Param) × ℕ)

-- `_caches`: by paramstyle and process id.
abbrev pub Caches : Type 0
Caches = List (Style × List (ℕ × Cache))

-- The state of a ScramClient: what it was given.
pub record Scram : Type 0 where
  pub mechanisms : List Text
  pub user : Text
  pub password : Text
  pub server_first : Option Text

-- A transaction id: a tuple of texts and integers.
pub data XidPart : Type 0 where
  number : ℤ → XidPart
  text : Text → XidPart

abbrev pub Xid : Type 0
Xid = List XidPart

pub record Connection : Type 0 where
  pub output : Bytes
  pub closed : Bool
  pub cursors : List Cursor
  pub statements : List PreparedStatement
  pub caches : Caches
  pub max_prepared_statements : ℕ
  pub error : Option Exception
  pub notices : List (List (Bytes × Bytes))
  pub notifications : List (ℤ × Text)
  pub parameter_statuses : List (Bytes × Bytes)
  pub commands_with_count : List Bytes
  pub client_protocol_version : ℤ
  pub numeric_to_float : Bool
  pub pg_types : TypeTable
  pub backend_key_data : Option Bytes
  pub copy_done : Bool
  pub in_transaction : Bool
  pub autocommit : Bool
  pub merge_socket_read : Bool
  pub user : Bytes
  pub password : Option Bytes
  pub web_identity_token : Option Text
  pub auth : Option Scram
  pub xid : Option Xid

-- What a handler does with the connection, away from the socket's input.
abbrev pub Handler : Type 0
Handler = Action Connection (Unit {0})

-- Code outside of the repository, and Python's library where it computes hashes, floats, calendar
-- dates or JSON: the functions of `pg_types` that need those, hashlib, scramp, the clock and the
-- process.
pub record Foreign : Type 0 where
  pub recv : InFunc → Bytes → Result Value
  -- raw * 10 ** (-1 * scale)
  pub to_float : ℤ → ℕ → Value
  pub md5_hexdigest : Bytes → Bytes
  pub sha256 : Bytes → Bytes
  -- ScramClient's own checks of the mechanisms and the password, and its get_client_first
  pub scram_client : Scram → Result (Unit {0})
  pub scram_client_first : Scram → Result Text
  pub scram_set_server_first : Scram → Text → Result Scram
  pub scram_client_final : Scram → Result Text
  pub scram_set_server_final : Scram → Text → Result (Unit {0})
  -- str(ms_since_epoch)
  pub client_nonce : Bytes
  -- str.isalnum on one character, and getpid()
  pub isalnum : ℕ → Bool
  pub pid : ℕ
  -- `-limit < v < limit` where `v` is no integer, and `int(n / 10 ** 6 * 1e6)`
  pub between : ℕ → PyValue → Result Bool
  pub float_micros : ℤ → ℤ
