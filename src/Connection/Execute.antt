-- ===== src/Connection/Execute.antt =====
-- redshift_connector/core.py, `Connection.execute`: the caches of statements, Parse and Describe of a
-- statement that is not cached, then Bind and Execute. Cursor and statement objects are numbers.
pub mod Requests
pub mod Tracking
pub mod Numbers
pub mod Updates
pub mod Kept
pub mod Invariant
pub mod Sent
use amazon_redshift_python_d.Prelude.{
  update_at, ℕ, zero, suc, ◌+◌, Bool, true, false, ◌&&◌, Option, none, some, List, [], ◌∷◌, ◌++◌,
  map, ltb, ◌==◌, if◌then◌else◌, length, get_elem?,
}
use amazon_redshift_python_d.Prelude.Int.{ℤ, pos, negsuc}
use amazon_redshift_python_d.Prelude.Result.{
  Result, ok, err, key_error, type_error, attribute_error,
}
use amazon_redshift_python_d.Prelude.Result as Result
use amazon_redshift_python_d.Prelude.Action.{Action, pure, raise, lift, self, modify, ◌>>=◌, ◌>>◌}
use amazon_redshift_python_d.Prelude.Dict.{dict_get, dict_set}
use amazon_redshift_python_d.Prelude.Text.{Bytes, Text, text_eq, codes, decimal}
use amazon_redshift_python_d.Paramstyle.{
  Style, qmark, numeric, named, format, pyformat, MakeArgs, convert_paramstyle,
}
use amazon_redshift_python_d.Types.{type_of}
use amazon_redshift_python_d.Types.Args.{PyValue, Param, ParamFunc, none_value, null_bytes}
use amazon_redshift_python_d.Types.Args.Inspect.{make_params, send_param}
use amazon_redshift_python_d.Connection.{
  Connection, Cursor, Cache, Caches, Field, PreparedStatement, Handler, Foreign,
}
use amazon_redshift_python_d.Connection.Coherent.{numbers}
use amazon_redshift_python_d.Connection.Sending
use amazon_redshift_python_d.Connection.Sending.{write, send_message, send_execute}
use amazon_redshift_python_d.Connection.Execute.Requests.{
  Vals, make_args, find_ps, statement_name, parse_body, bind_1, bind_2, bind_values,
}
use amazon_redshift_python_d.Connection.Messages.{
  World, Step, locally, on_cursor, close_all, statement_ids, handle_messages,
  handle_messages_merge_socket_read,
}

unfoldable pub style_eq : Style → Style → Bool
style_eq qmark qmark = true
style_eq numeric numeric = true
style_eq named named = true
style_eq format format = true
style_eq pyformat pyformat = true
style_eq a b = false

abbrev pub empty_cache : Cache
empty_cache = record { statement = []; ps = [] }

unfoldable pub find_pid : ℕ → List (ℕ × Cache) → Cache
find_pid pid [] = empty_cache
find_pid pid ((p, k) ∷ rest) = if p == pid then k else find_pid pid rest

-- self._caches[style][pid], empty where it is missing
unfoldable pub cache_of : Style → ℕ → Caches → Cache
unfolding style_eq find_pid
cache_of style pid [] = empty_cache
cache_of style pid ((s, pids) ∷ rest) =
    if style_eq s style then find_pid pid pids else cache_of style pid rest

-- The same cache, changed; it is made where it is missing.
unfoldable pub update_pid : ℕ → (Cache → Cache) → List (ℕ × Cache) → List (ℕ × Cache)
update_pid pid f [] = (pid, f empty_cache) ∷ []
update_pid pid f ((p, k) ∷ rest) =
    if p == pid then (p, f k) ∷ rest else (p, k) ∷ update_pid pid f rest

unfoldable pub update_cache : Style → ℕ → (Cache → Cache) → Caches → Caches
unfolding style_eq update_pid
update_cache style pid f [] = (style, update_pid pid f []) ∷ []
update_cache style pid f ((s, pids) ∷ rest) =
    if style_eq s style
    then (s, update_pid pid f pids) ∷ rest
    else (s, pids) ∷ update_cache style pid f rest

abbrev with_caches : (Caches → Caches) → Connection → Connection
with_caches f c = record c { caches = f c.caches }

-- The cached statements of a process, in all styles, and their numbers; `nums` holds the numbers of
-- all statements.
unfoldable pub cached_ids : ℕ → Caches → List ℕ
unfolding find_pid statement_ids
cached_ids pid [] = []
cached_ids pid ((s, pids) ∷ rest) = statement_ids (find_pid pid pids) ++ cached_ids pid rest

unfoldable pub num_at : List ℕ → ℕ → ℕ
num_at nums sid = elim (get_elem? nums sid) [ none ↦ 0 | some n ↦ n ]

unfoldable pub statement_nums : List ℕ → ℕ → Caches → List ℕ
unfolding num_at cached_ids
statement_nums nums pid caches = map (num_at nums) (cached_ids pid caches)

unfoldable pub maximum : List ℕ → ℕ
maximum [] = 0
maximum (n ∷ ns) = let m = maximum ns in if ltb m n then n else m

-- sorted(statement_nums)[-1] + 1
unfoldable pub fresh_num : List ℕ → ℕ → Caches → ℕ
unfolding maximum statement_nums
fresh_num nums pid caches = suc (maximum (statement_nums nums pid caches))

on_statement : ℕ → (PreparedStatement → PreparedStatement) → Connection → Connection
on_statement sid f c = record c { statements = update_at sid f c.statements }

reset_cursor : Cursor → Cursor
reset_cursor cur = record cur {
  cached_rows = [];
  row_count = negsuc 0;
  redshift_row_count = negsuc 0;
}

pub set_ps : ℕ → Cursor → Cursor
set_ps sid cur = record cur { ps = some sid }

-- An attribute of what may be None.
unfoldable pub present : {A : Type 0} → Option A → Action Connection A
present none = raise attribute_error
present (some a) = pure a

pub style_of : ℕ → Action Connection Style
unfolding present
style_of cid = do c ← self; cur ← present (get_elem? c.cursors cid); pure cur.paramstyle

ps_of : ℕ → Action Connection PreparedStatement
unfolding present
ps_of sid = do c ← self; present (get_elem? c.statements sid)

module _ (F : Foreign) where
  -- The cached conversion, or a new one, which is cached.
  found_or_converted : Style → Text → Option (Text × MakeArgs) → Action Connection (Text × MakeArgs)
  unfolding dict_set update_cache
  found_or_converted style operation (some found) = pure found
  found_or_converted style operation none = do
    made ← lift (convert_paramstyle F.isalnum style operation)
    modify (
        with_caches (
          update_cache style F.pid
            (λ k. record k { statement = dict_set operation made k.statement })))
    pure made

  -- cache["statement"][operation]
  unfoldable pub converted : Style → Text → Action Connection (Text × MakeArgs)
  unfolding found_or_converted cache_of update_cache
  converted style operation = do
    modify (with_caches (update_cache style F.pid (λ k. k)))
    c ← self
    found_or_converted style operation
        (dict_get operation (cache_of style F.pid c.caches).statement)

  -- The new `ps`, which becomes the cursor's.
  unfoldable pub new_statement : ℕ → List Param → Action Connection PreparedStatement
  unfolding fresh_num set_ps
  new_statement cid params = do
    c ← self
    let num = fresh_num (numbers c.statements) F.pid c.caches
    let ps : PreparedStatement = record {
      statement_name_bin = statement_name F.pid num;
      pid = F.pid;
      statement_num = num;
      row_desc = [];
      param_funcs = map (λ p. p.func) params;
      input_funcs = none;
      bind_1 = [];
      bind_2 = [];
    }
    modify (λ d. record d { statements = d.statements ++ (ps ∷ []) })
    modify (on_cursor cid (set_ps (length c.statements)))
    pure ps

  -- Parse, Describe and Sync.
  unfoldable pub send_parse : Bytes → Text → List Param → Handler
  send_parse name statement params = do
    body ← lift (parse_body name statement params)
    send_message b'P' body
    send_message b'D' (b'S' ∷ name)
    write Sending.sync_msg

  output_fcs : List Field → Connection → List ℕ
  output_fcs fields c = map (λ f. (type_of c.pg_types f.type_oid).0) fields

  -- What the description of the columns adds to `ps`.
  unfoldable pub finish_statement : ℕ → Bytes → List Param → Handler
  unfolding on_statement ps_of output_fcs
  finish_statement sid name params = do
    ps ← ps_of sid
    c ← self
    let output_fc = output_fcs ps.row_desc c
    modify (on_statement sid (λ p. record p { input_funcs = some (map (λ f. f.func) ps.row_desc) }))
    first ← lift (bind_1 name (map (λ p. p.fc) params))
    modify (on_statement sid (λ p. record p { bind_1 = first }))
    second ← lift (bind_2 output_fc)
    modify (on_statement sid (λ p. record p { bind_2 = second }))

  -- Where there are more statements than max_prepared_statements all of them are closed. Cursor 0 is
  -- `self._cursor`, whose loop reads the answers.
  unfoldable pub evict : ℕ → Style → Step
  evict fuel style = do
    w ← self
    let cache = cache_of style F.pid w.conn.caches
    if ltb w.conn.max_prepared_statements (length cache.ps)
        then (do
          close_all (handle_messages F fuel 0) (statement_ids cache)
          locally (modify (with_caches (update_cache style F.pid (λ k. record k { ps = [] })))))
        else pure tt

  unfoldable pub store_statement : Style → Text × List Param → ℕ → Handler
  store_statement style key sid =
      modify
        (with_caches (update_cache style F.pid (λ k. record k { ps = k.ps ++ ((key, sid) ∷ []) })))

  -- A statement that is not cached; `sid` is the number of the new object.
  unfoldable pub prepare_as : ℕ → ℕ → ℕ → Style → Text → Text → List Param → Action World ℕ
  prepare_as fuel cid sid style operation statement params = do
    ps ← locally (new_statement cid params)
    locally (send_parse ps.statement_name_bin statement params)
    handle_messages F fuel cid
    locally (finish_statement sid ps.statement_name_bin params)
    evict fuel style
    locally (store_statement style (operation, params) sid)
    pure sid

  unfoldable pub prepare : ℕ → ℕ → Style → Text → Text → List Param → Action World ℕ
  unfolding prepare_as
  prepare fuel cid style operation statement params = do
    w ← self
    prepare_as fuel cid (length w.conn.statements) style operation statement params

  unfoldable pub found_or_prepared :
      ℕ → ℕ → Style → Text → Text → List Param → Option ℕ → Action World ℕ
  unfolding set_ps
  found_or_prepared fuel cid style operation statement params (some sid) = do
    locally (modify (on_cursor cid (set_ps sid)))
    pure sid
  found_or_prepared fuel cid style operation statement params none =
      prepare fuel cid style operation statement params

  -- Bind, Execute and Sync.
  unfoldable pub send_bind : ℕ → ℕ → List PyValue → Handler
  unfolding reset_cursor ps_of
  send_bind cid sid args = do
    modify (on_cursor cid reset_cursor)
    ps ← ps_of sid
    values ← lift (bind_values F.float_micros args ps.param_funcs)
    send_message b'B' (ps.bind_1 ++ (values ++ ps.bind_2))
    send_execute
    write Sending.sync_msg

  unfoldable pub read_answer : ℕ → ℕ → Step
  read_answer fuel cid = do
    w ← self
    if w.conn.merge_socket_read
        then handle_messages_merge_socket_read F fuel cid
        else handle_messages F fuel cid

  unfoldable pub execute : ℕ → ℕ → Text → Vals → Step
  unfolding style_of
  execute fuel cid operation vals = do
    style ← locally (style_of cid)
    (statement, args_of) ← locally (converted style operation)
    args ← lift (make_args args_of vals)
    params ← lift (make_params F.between args)
    w ← self
    sid ←
        found_or_prepared fuel cid style operation statement params
          (find_ps (operation, params) (cache_of style F.pid w.conn.caches).ps)
    locally (send_bind cid sid args)
    read_answer fuel cid
