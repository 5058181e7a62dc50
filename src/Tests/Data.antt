-- ===== src/Tests/Data.antt =====
-- A connection, the outside functions and queries to test on.
use amazon_redshift_python_d.Prelude.{ℕ, Bool, true, false, ◌&&◌, ◌||◌, none, some, [], ◌∷◌, leb}
use amazon_redshift_python_d.Prelude.Int.{pos, negsuc}
use amazon_redshift_python_d.Prelude.Result.{ok, err, value_error, type_error}
use amazon_redshift_python_d.Prelude.Text.{codes}
use amazon_redshift_python_d.Types.{null, pg_types}
use amazon_redshift_python_d.Types.Protocol.{enable_protocol}
use amazon_redshift_python_d.Paramstyle.{Style}
use amazon_redshift_python_d.Connection.{Connection, Cursor, Foreign, missing}

-- The letters and digits of ASCII.
abbrev pub is_alnum : ℕ → Bool
is_alnum c = (leb 48 c && leb c 57) || (leb 65 c && leb c 90) || (leb 97 c && leb c 122)

abbrev pub outside_code : Foreign
outside_code = record {
  recv = λ f bytes. err value_error;
  to_float = λ z n. null;
  md5_hexdigest = λ bytes. bytes;
  sha256 = λ bytes. bytes;
  scram_client = λ s. ok tt;
  scram_client_first = λ s. ok (codes "n,,");
  scram_set_server_first = λ s t. ok s;
  scram_client_final = λ s. ok (codes "c=");
  scram_set_server_final = λ s t. ok tt;
  client_nonce = codes "1";
  isalnum = is_alnum;
  pid = 7;
  between = λ limit v. err type_error;
  float_micros = λ n. n;
}

abbrev pub cursor : Cursor
cursor = record {
  ps = none;
  row_count = negsuc 0;
  redshift_row_count = negsuc 0;
  cached_rows = [];
  paramstyle = Style.format;
  stream = missing;
  attached = true;
}

abbrev pub connection : Connection
connection = record {
  output = [];
  closed = false;
  cursors = cursor ∷ cursor ∷ [];
  statements = [];
  caches = [];
  max_prepared_statements = 1000;
  error = none;
  notices = [];
  notifications = [];
  parameter_statuses = [];
  commands_with_count =
      codes "INSERT"
      ∷ codes "DELETE"
      ∷ codes "UPDATE"
      ∷ codes "MOVE"
      ∷ codes "FETCH"
      ∷ codes "COPY"
      ∷ codes "SELECT"
      ∷ [];
  client_protocol_version = pos 0;
  numeric_to_float = false;
  pg_types = enable_protocol (pos 0) false pg_types;
  backend_key_data = none;
  copy_done = false;
  in_transaction = false;
  autocommit = false;
  merge_socket_read = true;
  user = codes "user";
  password = some (codes "pw");
  web_identity_token = none;
  auth = none;
  xid = none;
}
