-- ===== src/Tests/Execute.antt =====
-- Tests of `Connection.execute`.
use amazon_redshift_python_d.Prelude.{◌≡◌, refl, some, List, [], ◌∷◌, ◌++◌}
use amazon_redshift_python_d.Prelude.Dict.{dict_get}
use amazon_redshift_python_d.Prelude.Int.{pos}
use amazon_redshift_python_d.Prelude.Result.{ok, err, not_supported_error}
use amazon_redshift_python_d.Prelude.Text.{Bytes, codes, text_eq}
use amazon_redshift_python_d.Paramstyle.{Style, pass}
use amazon_redshift_python_d.Types.Params.{SendFunc, inspect_int}
use amazon_redshift_python_d.Types.Args.{
  PyValue, Param, scalar, int_value, unmapped, int_func, scalar_param, send_scalar,
}
use amazon_redshift_python_d.Types.Args.Inspect.{make_param, make_params, send_param}
use amazon_redshift_python_d.Connection.{Connection, PreparedStatement}
use amazon_redshift_python_d.Connection.Coherent.{IsCoherent}
use amazon_redshift_python_d.Connection.Execute.{
  cache_of, converted, execute, find_pid, style_eq, read_answer,
}
use amazon_redshift_python_d.Connection.Execute.Invariant.{execute-IsCoherent}
use amazon_redshift_python_d.Connection.Execute.Requests.{
  sequence, bind_values, find_ps, make_args, params_eq,
}
use amazon_redshift_python_d.Connection.Execute.Kept.{Cached}
use amazon_redshift_python_d.Connection.Execute.Sent.{
  IsCached, execute-cached, execute-refused, requests,
}
use amazon_redshift_python_d.Connection.Messages.{World}
use amazon_redshift_python_d.Connection.Messages.Stream.{world}
use amazon_redshift_python_d.Wire.{create_message, pack, be_bytes}
use amazon_redshift_python_d.Tests.Data.{outside_code, connection, cursor}
use amazon_redshift_python_d.Tests.Messages.{complete, connection-IsCoherent, ready}

abbrev five : List PyValue
five = scalar (int_value (pos 5)) ∷ []

abbrev five_params : List Param
five_params = record { oid = pos 21; fc = 1; func = int_func SendFunc.h_pack } ∷ []

-- A statement with a parameter, as Parse left it: it returns no rows.
abbrev prepared : PreparedStatement
prepared = record {
  statement_name_bin = codes "redshift_connector_statement_7_1" ++ (0 ∷ []);
  pid = 7;
  statement_num = 1;
  row_desc = [];
  param_funcs = int_func SendFunc.h_pack ∷ [];
  input_funcs = some [];
  bind_1 = 0 ∷ (codes "redshift_connector_statement_7_1" ++ (0 ∷ 0 ∷ 1 ∷ 0 ∷ 1 ∷ 0 ∷ 1 ∷ []));
  bind_2 = 0 ∷ 0 ∷ [];
}

abbrev cached_connection : Connection
cached_connection = record connection {
  statements = prepared ∷ [];
  caches =
      (
        Style.format,
        (
          7,
          record {
            statement = (codes "CALL p(%s)", (codes "CALL p($1)", pass)) ∷ [];
            ps = ((codes "CALL p(%s)", five_params), 0) ∷ [];
          },
        )
            ∷ [],
      )
      ∷ [];
}

abbrev bind_message : Bytes
bind_message =
    b'B' ∷ 0 ∷ 0 ∷ 0 ∷ 52 ∷ (prepared.bind_1 ++ (0 ∷ 0 ∷ 0 ∷ 2 ∷ 0 ∷ 5 ∷ prepared.bind_2))

call-IsCached :
    IsCached outside_code 1 (codes "CALL p(%s)") (sequence five) cached_connection bind_message
unfolding cache_of style_eq find_pid dict_get text_eq make_args make_params make_param scalar_param
    inspect_int find_ps params_eq bind_values send_param send_scalar create_message pack be_bytes
call-IsCached = record {
  cursor = cursor;
  statement = codes "CALL p($1)";
  args_of = pass;
  args = five;
  params = five_params;
  sid = 0;
  ps = prepared;
  values = 0 ∷ 0 ∷ 0 ∷ 2 ∷ 0 ∷ 5 ∷ [];
  on_cursor = refl;
  converted = refl;
  arguments = refl;
  parameters = refl;
  hit = refl;
  prepared = refl;
  bound = refl;
  framed = refl;
}

execute-cached_example :
    (d : Connection) × (d.output ≡ requests bind_message)
    × (execute outside_code 9 1 (codes "CALL p(%s)") (sequence five) (world cached_connection [])
        ≡ read_answer outside_code 9 1 (world d []))
execute-cached_example =
    execute-cached outside_code 9 1 (codes "CALL p(%s)") (sequence five) bind_message
      (world cached_connection []) call-IsCached refl

abbrev foreign : List PyValue
foreign = scalar unmapped ∷ []

select_converts :
    (converted outside_code Style.format (codes "CALL p(%s)") cached_connection).0
    ≡ ok (codes "CALL p($1)", pass)
unfolding converted cache_of style_eq find_pid dict_get text_eq
select_converts = refl

foreign_refused :
    make_params outside_code.between foreign ≡ err (not_supported_error "not mapped to pg type")
unfolding make_params make_param scalar_param
foreign_refused = refl

foreign_arguments : make_args pass (sequence foreign) ≡ ok foreign
unfolding make_args
foreign_arguments = refl

abbrev refused : World
refused =
    (execute outside_code 9 1 (codes "CALL p(%s)") (sequence foreign)
      (world cached_connection [])).1

execute-refused_example :
    ((execute outside_code 9 1
        (codes "CALL p(%s)")
        (sequence foreign)
        (world cached_connection [])).0
      ≡ err (not_supported_error "not mapped to pg type"))
    × (refused.conn.output ≡ [])
    × (refused.conn.statements ≡ prepared ∷ [])
    × (refused.conn.cursors ≡ cursor ∷ cursor ∷ [])
execute-refused_example =
    execute-refused outside_code 9 1 (codes "CALL p(%s)") (sequence foreign)
      (world cached_connection []) cursor (codes "CALL p($1)") pass foreign
      (not_supported_error "not mapped to pg type") refl select_converts foreign_arguments
      foreign_refused

-- ParseComplete, NoData, ReadyForQuery, then BindComplete, CommandComplete and ReadyForQuery.
abbrev pub call_answer : Bytes
call_answer =
    b'1'
    ∷ 0
    ∷ 0
    ∷ 0
    ∷ 4
    ∷ b'n'
    ∷ 0
    ∷ 0
    ∷ 0
    ∷ 4
    ∷ (ready.frame ++ (b'2' ∷ 0 ∷ 0 ∷ 0 ∷ 4 ∷ (complete.frame ++ ready.frame)))

execute-IsCoherent_example :
    IsCoherent Cached
      (execute outside_code 9 1
        (codes "CALL p(%s)")
        (sequence five)
        (world connection call_answer)).1.conn
execute-IsCoherent_example =
    execute-IsCoherent outside_code 9 1 (codes "CALL p(%s)") (sequence five)
      (world connection call_answer) connection-IsCoherent
