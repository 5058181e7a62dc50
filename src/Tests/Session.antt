-- ===== src/Tests/Session.antt =====
-- Tests of start-up and of the methods of the connection and of the cursor.
use amazon_redshift_python_d.Prelude.{◌≡◌, ◌⊎◌, refl, true, false, none, [], ◌++◌}
use amazon_redshift_python_d.Prelude.Int.{pos, ltb_ℤ, ◌≤ℤ◌}
use amazon_redshift_python_d.Prelude.Result.{Result, ok, err, interface_error}
use amazon_redshift_python_d.Prelude.Text.{Text, codes, decimal, str_int, int}
use amazon_redshift_python_d.Prelude.Text.Utf8.{encode}
use amazon_redshift_python_d.Paramstyle.{Style}
use amazon_redshift_python_d.Types.Protocol.{base_server}
use amazon_redshift_python_d.Connection.{missing}
use amazon_redshift_python_d.Connection.Coherent.{IsCoherent}
use amazon_redshift_python_d.Connection.Execute.Kept.{Cached}
use amazon_redshift_python_d.Connection.Execute.Requests.{no_vals}
use amazon_redshift_python_d.Connection.Messages.{
  World, read, is_message_type, message_type, local_handler, raise_error,
}
use amazon_redshift_python_d.Connection.Messages.Stream.{world}
use amazon_redshift_python_d.Wire.{pack, be_bytes, ci_unpack, unpack, be_value_from}
use amazon_redshift_python_d.Connection.Sending.{write}
use amazon_redshift_python_d.Connection.Status.{handle_parameter_status, handle_ready_for_query}
use amazon_redshift_python_d.Session.{close, cursor_execute}
use amazon_redshift_python_d.Session.Closing.{close-cursor_execute, tpc-autocommit}
use amazon_redshift_python_d.Session.Reachable.{
  Reachable-IsCoherent, started_up, called, received, call_execute, perform,
}
use amazon_redshift_python_d.Session.Startup.{
  has_status, start_up, new_connection, startup_loop, startup_handler, settle_protocol,
}
use amazon_redshift_python_d.Session.Startup.Connect.{connect}
use amazon_redshift_python_d.Session.Startup.Params.{
  str_password, Options, absent, str_param, encode_params, init_params, startup_message,
}
use amazon_redshift_python_d.Session.Startup.Reported.{IsReported, connect-Reported}
use amazon_redshift_python_d.Session.Tpc.{tpc_commit, tpc_recover, tpc_rollback}
use amazon_redshift_python_d.Tests.Data.{outside_code, connection, cursor}
use amazon_redshift_python_d.Tests.Execute.{call_answer}
use amazon_redshift_python_d.Tests.Messages.{binary_protocol}

abbrev options : Options
options = record {
  user = str_param (codes "user");
  password = str_password (codes "pw");
  database = absent;
  application_name = absent;
  replication = absent;
  client_protocol_version = pos 2;
  driver_version = codes "2";
  os_version = codes "Linux";
  credentials_provider = none;
  provider_name = none;
  web_identity_token = none;
  max_prepared_statements = 1000;
  numeric_to_float = false;
  paramstyle = Style.format;
}

abbrev world_of : Result World → World
world_of (ok w) = w
world_of (err e) = world connection []

abbrev linked : World
linked = world_of (connect outside_code 9 options binary_protocol)

linked_runs :
    (connect outside_code 9 options binary_protocol ≡ ok linked)
    × (ltb_ℤ base_server linked.conn.client_protocol_version ≡ true)
unfolding connect encode_params init_params encode str_int decimal startup_message pack be_bytes
    start_up write new_connection startup_loop message_type is_message_type read ci_unpack unpack
    be_value_from startup_handler local_handler handle_parameter_status handle_ready_for_query int
    raise_error settle_protocol has_status
linked_runs = (refl, refl)

connect-Reported_example :
    (linked.conn.client_protocol_version ≤ℤ base_server)
    ⊎ IsReported linked.conn.client_protocol_version linked.conn.parameter_statuses
connect-Reported_example =
    connect-Reported outside_code 9 options binary_protocol linked linked_runs.0

-- Start-up, then the server's answer to `begin transaction` and to a statement, then the statement.
abbrev answered : World
answered = record linked { input = linked.input ++ (call_answer ++ call_answer) }

Reachable-IsCoherent_example :
    IsCoherent Cached
      (perform outside_code Style.format 9
        (call_execute 1 (codes "CALL p()") no_vals missing true)
        answered).conn
Reachable-IsCoherent_example =
    Reachable-IsCoherent outside_code Style.format 9
      (perform outside_code Style.format 9 (call_execute 1 (codes "CALL p()") no_vals missing true)
        answered)
      (called (call_execute 1 (codes "CALL p()") no_vals missing true)
        (received (call_answer ++ call_answer) (started_up options binary_protocol linked_runs.0)))

close-cursor_execute_example :
    cursor_execute outside_code 9 1
      (codes "SELECT 1")
      no_vals
      missing
      true
      (world (close connection).1 [])
    ≡ (err (interface_error "connection is closed"), world (close connection).1 [])
close-cursor_execute_example =
    close-cursor_execute outside_code 9 1 (codes "SELECT 1") no_vals missing true connection []
      cursor refl refl

tpc-autocommit_example :
    ((tpc_recover outside_code Style.format 9 (world connection call_answer)).1.conn.autocommit
      ≡ false)
    × ((tpc_commit outside_code Style.format 9 none
          (world connection call_answer)).1.conn.autocommit
        ≡ false)
    × ((tpc_rollback outside_code Style.format 9 none
          (world connection call_answer)).1.conn.autocommit
        ≡ false)
tpc-autocommit_example =
    tpc-autocommit outside_code Style.format 9 none (world connection call_answer)

-- it's; a comment
abbrev name : Text
name = codes "it's; --a"

-- What may follow in the query.
abbrev following : Text
following = codes " ORDER BY 1"
