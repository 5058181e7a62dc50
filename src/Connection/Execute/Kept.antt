-- ===== src/Connection/Execute/Kept.antt =====
-- `Connection.execute` keeps the connection coherent, with its caches: what is cached exists, has a
-- number of its own, and is not more than the bound allows.
use amazon_redshift_python_d.Prelude.{
  ℕ, ◌≤◌, ◌<◌, ◌≡◌, inl, refl, Option, none, some, List, length, All,
}
use amazon_redshift_python_d.Prelude.Action.{modify}
use amazon_redshift_python_d.Prelude.Dict.{dict_set}
use amazon_redshift_python_d.Prelude.Keeps.{
  Keeps, modify-Keeps, bind-Keeps, if-Keeps, lift-Keeps, raise-Keeps, self-Keeps, keeping,
}
use amazon_redshift_python_d.Prelude.Text.{Bytes, Text}
use amazon_redshift_python_d.Paramstyle.{Style, MakeArgs}
use amazon_redshift_python_d.Types.{InFunc}
use amazon_redshift_python_d.Types.Args.{Param, PyValue}
use amazon_redshift_python_d.Connection.{Cache, Caches, Cursor, Foreign, PreparedStatement}
use amazon_redshift_python_d.Connection.Coherent.{IsCoherent, Tracked, on_statements-IsCoherent}
use amazon_redshift_python_d.Connection.Sending
use amazon_redshift_python_d.Connection.Sending.Kept.{write-Keeps, send_message-Keeps}
use amazon_redshift_python_d.Connection.Execute.{
  cache_of, converted, found_or_converted, present, finish_statement, num_at, on_statement, ps_of,
  read_answer, send_bind, send_parse, style_of, update_cache, with_caches,
}
use amazon_redshift_python_d.Connection.Execute.Tracking.{
  All-Shrunk, Shrunk, Sound, Sound-Shrunk, caches_for, ids,
}
use amazon_redshift_python_d.Connection.Execute.Updates.{
  Smaller, clear_caches-Shrunk, update_cache-Shrunk,
}
use amazon_redshift_python_d.Connection.Messages.{World, on_cursor}
use amazon_redshift_python_d.Connection.Messages.Kept.{
  Clears, handle_messages-Keeps, merge_socket_read-Keeps,
}

-- For each process: what is cached exists, no two cached statements have the same number, and no
-- cache holds more than max_prepared_statements and one.
abbrev pub Cached : Tracked
Cached caches nums max = (pid : ℕ) → Sound nums max (caches_for pid caches)

-- A new statement, not cached yet, with a number above those of the cached ones.
abbrev pub Pending : ℕ → ℕ → Tracked
Pending pid sid caches nums max =
    Cached caches nums max
    × (sid < length nums)
    × All (λ s. num_at nums s < num_at nums sid) (ids (caches_for pid caches))

-- The process's cache of the style has room.
abbrev pub Room : Style → ℕ → ℕ → Tracked
Room style pid sid caches nums max =
    Pending pid sid caches nums max × (length (cache_of style pid caches).ps ≤ max)

-- Kept where statements are cleared.
abbrev pub Shrinks : Tracked → Type 0
Shrinks T =
    (caches after : Caches) (nums : List ℕ) (max : ℕ)
    → ((q : ℕ) → Shrunk (caches_for q caches) (caches_for q after))
    → T caches nums max
    → T after nums max

pub Cached-Shrinks : Shrinks Cached
Cached-Shrinks caches after nums max s h = λ pid. Sound-Shrunk nums max (s pid) (h pid)

pub Pending-Shrinks : (pid sid : ℕ) → Shrinks (Pending pid sid)
Pending-Shrinks pid sid caches after nums max s (h, exists, below) = (
  Cached-Shrinks caches after nums max s h,
  exists,
  All-Shrunk (λ t. num_at nums t < num_at nums sid) (s pid) below,
)

pub Shrinks-Clears : (T : Tracked) → Shrinks T → Clears T
Shrinks-Clears T shrinks =
    λ i j caches nums max h. shrinks caches _ nums max (λ q. clear_caches-Shrunk q i j caches) h

abbrev pub Holds : Tracked → World → Type 0
Holds T w = IsCoherent T w.conn

module _ (T : Tracked) where
  pub on_cursor-Keeps :
      (cid : ℕ) (f : Cursor → Cursor) → Keeps (IsCoherent T) (modify (on_cursor cid f))
  unfolding IsCoherent
  on_cursor-Keeps cid f = modify-Keeps (λ c h. h)

  pub present-Keeps : {A : Type 0} (o : Option A) → Keeps (IsCoherent T) (present o)
  unfolding present
  present-Keeps none = raise-Keeps _
  present-Keeps (some a) = lift-Keeps _

  ps_of-Keeps : (sid : ℕ) → Keeps (IsCoherent T) (ps_of sid)
  unfolding ps_of
  ps_of-Keeps sid = search (keeping, present-Keeps) depth 10

  pub style_of-Keeps : (cid : ℕ) → Keeps (IsCoherent T) (style_of cid)
  unfolding style_of
  style_of-Keeps cid = search (keeping, present-Keeps) depth 10

  on_statement-Keeps :
      (sid : ℕ) (f : PreparedStatement → PreparedStatement)
      → ((p : PreparedStatement) → (f p).statement_num ≡ p.statement_num)
      → Keeps (IsCoherent T) (modify (on_statement sid f))
  unfolding on_statement
  on_statement-Keeps sid f same = modify-Keeps (λ c h. on_statements-IsCoherent T sid f c same h)

  with_caches-Keeps :
      (style : Style) (pid : ℕ) (f : Cache → Cache)
      → Shrinks T
      → ((k : Cache) → Smaller k (f k))
      → Keeps (IsCoherent T) (modify (with_caches (update_cache style pid f)))
  unfolding IsCoherent
  with_caches-Keeps style pid f shrinks smaller = modify-Keeps (λ c (h, t).
      (h, shrinks c.caches _ _ _ (λ q. update_cache-Shrunk f pid q style c.caches smaller) t))

module _ (F : Foreign) (T : Tracked) (shrinks : Shrinks T) where
  ensure-Keeps :
      (style : Style)
      → Keeps (IsCoherent T) (modify (with_caches (update_cache style F.pid (λ k. k))))
  ensure-Keeps style = with_caches-Keeps T style F.pid (λ k. k) shrinks (λ k. inl refl)

  set_statement-Keeps :
      (style : Style) (operation : Text) (made : Text × MakeArgs)
      → Keeps (IsCoherent T) (
          modify (
            with_caches (
              update_cache style F.pid
                (λ k. record k { statement = dict_set operation made k.statement }))))
  set_statement-Keeps style operation made =
      with_caches-Keeps T style F.pid
        (λ k. record k { statement = dict_set operation made k.statement }) shrinks (λ k. inl refl)

  found_or_converted-Keeps :
      (style : Style) (operation : Text) (found : Option (Text × MakeArgs))
      → Keeps (IsCoherent T) (found_or_converted F style operation found)
  unfolding found_or_converted
  found_or_converted-Keeps style operation (some found) = lift-Keeps _
  found_or_converted-Keeps style operation none = search (keeping, set_statement-Keeps) depth 20

  pub converted-Keeps :
      (style : Style) (operation : Text) → Keeps (IsCoherent T) (converted F style operation)
  unfolding converted
  converted-Keeps style operation =
      search (keeping, ensure-Keeps, found_or_converted-Keeps) depth 20

  pub send_parse-Keeps :
      (name : Bytes) (statement : Text) (params : List Param)
      → Keeps (IsCoherent T) (send_parse F name statement params)
  unfolding send_parse
  send_parse-Keeps name statement params =
      search (keeping, write-Keeps, send_message-Keeps) depth 30 fits 5000

  input_funcs-Keeps :
      (sid : ℕ) (funcs : List InFunc)
      → Keeps
          (IsCoherent T)
          (modify (on_statement sid (λ p. record p { input_funcs = some funcs })))
  input_funcs-Keeps sid funcs =
      on_statement-Keeps T sid (λ p. record p { input_funcs = some funcs }) (λ p. refl)

  bind_1-Keeps :
      (sid : ℕ) (bs : Bytes)
      → Keeps (IsCoherent T) (modify (on_statement sid (λ p. record p { bind_1 = bs })))
  bind_1-Keeps sid bs = on_statement-Keeps T sid (λ p. record p { bind_1 = bs }) (λ p. refl)

  bind_2-Keeps :
      (sid : ℕ) (bs : Bytes)
      → Keeps (IsCoherent T) (modify (on_statement sid (λ p. record p { bind_2 = bs })))
  bind_2-Keeps sid bs = on_statement-Keeps T sid (λ p. record p { bind_2 = bs }) (λ p. refl)

  pub finish_statement-Keeps :
      (sid : ℕ) (name : Bytes) (params : List Param)
      → Keeps (IsCoherent T) (finish_statement F sid name params)
  unfolding finish_statement
  finish_statement-Keeps sid name params =
      search (keeping, ps_of-Keeps, input_funcs-Keeps, bind_1-Keeps, bind_2-Keeps) depth 30 fits
        5000

  pub send_bind-Keeps :
      (cid sid : ℕ) (args : List PyValue) → Keeps (IsCoherent T) (send_bind F cid sid args)
  unfolding send_bind Sending.send_execute
  send_bind-Keeps cid sid args =
      search (keeping, on_cursor-Keeps, ps_of-Keeps, write-Keeps, send_message-Keeps) depth 30 fits
        5000

  pub read_answer-Keeps : (fuel cid : ℕ) → Keeps (Holds T) (read_answer F fuel cid)
  unfolding read_answer
  read_answer-Keeps fuel cid = bind-Keeps self-Keeps (λ w.
      if-Keeps w.conn.merge_socket_read
        (merge_socket_read-Keeps T (Shrinks-Clears T shrinks) F fuel cid)
        (handle_messages-Keeps T (Shrinks-Clears T shrinks) F fuel cid))
