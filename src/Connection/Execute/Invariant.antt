-- ===== src/Connection/Execute/Invariant.antt =====
-- `Connection.execute` keeps what holds of the caches: no two cached statements of a process have the
-- same number, and so the same name, and no cache outgrows its bound.
use amazon_redshift_python_d.Prelude.{
  ℕ, suc, ◌<◌, ◌≡◌, inl, inr, refl, ap, Option, none, some, List, [], ◌∷◌, ◌++◌, arith, ltb, ◌==◌,
  length, All, Bool-cases, ==_iff, length-append,
}
use amazon_redshift_python_d.Prelude.Action.{Action, modify}
use amazon_redshift_python_d.Prelude.Result.{Result, ok, err}
use amazon_redshift_python_d.Prelude.Keeps.{
  Keeps, Keeps_lem, each, then-Keeps, lift-Keeps, keeping, Leads, Leads_lem, leads, Ends,
  bind-Leads, Keeps-Leads,
}
use amazon_redshift_python_d.Prelude.Text.{Text}
use amazon_redshift_python_d.Paramstyle.{Style}
use amazon_redshift_python_d.Types.Args.{Param}
use amazon_redshift_python_d.Connection.{Caches, Connection, Foreign, PreparedStatement}
use amazon_redshift_python_d.Connection.Coherent.{IsCoherent, Tracked, numbers}
use amazon_redshift_python_d.Connection.Execute.{
  cache_of, evict, execute, found_or_prepared, fresh_num, new_statement, num_at, prepare,
  prepare_as, set_ps, store_statement, update_cache, with_caches,
}
use amazon_redshift_python_d.Connection.Execute.Requests.{Vals}
use amazon_redshift_python_d.Connection.Execute.Kept.{
  Cached, Pending, Room, Shrinks, Holds, Cached-Shrinks, Pending-Shrinks, Shrinks-Clears,
  on_cursor-Keeps, style_of-Keeps, converted-Keeps, send_parse-Keeps, finish_statement-Keeps,
  send_bind-Keeps, read_answer-Keeps,
}
use amazon_redshift_python_d.Connection.Execute.Numbers.{
  Sound-append, fresh_num-above, num_at-append, num_at-last,
}
use amazon_redshift_python_d.Connection.Execute.Tracking.{
  Entry, Sound-Grown, Sound-Shrunk, cached_ids-ids, caches_for, ids,
}
use amazon_redshift_python_d.Connection.Execute.Updates.{
  cache_of-update_cache, update_cache-Shrunk, update_cache-others, with_entry, with_entry-Grown,
}
use amazon_redshift_python_d.Connection.Messages.{World, locally, handle_messages, statement_ids}
use amazon_redshift_python_d.Connection.Messages.Kept.{
  Clears, close_all-Keeps, handle_messages-Keeps, locally-Keeps,
}

numbers-append :
    (ps : List PreparedStatement) (p : PreparedStatement)
    → numbers (ps ++ (p ∷ [])) ≡ numbers ps ++ (p.statement_num ∷ [])
numbers-append [] p = refl
numbers-append (q ∷ ps) p = ap (λ ns. q.statement_num ∷ ns) (numbers-append ps p)

length-numbers : (ps : List PreparedStatement) → length (numbers ps) ≡ length ps
length-numbers [] = refl
length-numbers (p ∷ ps) = ap suc (length-numbers ps)

-- What holds behind a new statement, over the numbers alone.
new_number-Pending :
    (pid : ℕ) (caches : Caches) (nums : List ℕ) (max : ℕ)
    → Cached caches nums max
    → Pending pid (length nums) caches (nums ++ (fresh_num nums pid caches ∷ [])) max
new_number-Pending pid caches nums max h = (
  λ q. Sound-append nums (fresh_num nums pid caches ∷ []) max (caches_for q caches) (h q),
  omega (arith, length-append nums (fresh_num nums pid caches ∷ [])),
  rw (num_at-last nums (fresh_num nums pid caches)) (
      below (ids (caches_for pid caches)) (h pid).known
        (rw (← cached_ids-ids pid caches) (fresh_num-above nums pid caches))),
)
  where
    below :
        (ss : List ℕ)
        → All (λ s. s < length nums) ss
        → All (λ s. num_at nums s < fresh_num nums pid caches) ss
        → All
            (λ s. num_at (nums ++ (fresh_num nums pid caches ∷ [])) s < fresh_num nums pid caches)
            ss
    below [] k a = tt
    below (s ∷ ss) (lt, k) (p, a) =
        (rw (num_at-append nums (fresh_num nums pid caches ∷ []) s lt) p, below ss k a)

-- A statement that is pending is cached.
stored-Cached :
    (style : Style) (pid : ℕ) (e : Entry) (caches : Caches) (nums : List ℕ) (max : ℕ)
    → Room style pid e.1 caches nums max
    → Cached (update_cache style pid (with_entry e) caches) nums max
stored-Cached style pid e caches nums max ((h, exists, below), few) = λ q.
    elim (Bool-cases (pid == q)) [
      | inl same ↦
          let p : pid ≡ q = (==_iff pid q).0 same in
          rw (← p) (
            Sound-Grown nums e max (with_entry-Grown e max pid style caches few) (h pid) exists
              below)
      | inr other ↦
          Sound-Shrunk nums max (update_cache-others (with_entry e) pid q style caches other) (h q)
    ]

Pending-Cached :
    (pid sid : ℕ) (c : Connection) → IsCoherent (Pending pid sid) c → IsCoherent Cached c
unfolding IsCoherent
Pending-Cached pid sid c (h, (cached, exists, below)) = (h, cached)

locally-Leads :
    {A : Type 0} {P E : Connection → Type 0} {Q : A → Connection → Type 0} {m : Action Connection A}
    → Leads P Q E m
    → Leads (λ w. P w.conn) (λ a w. Q a w.conn) (λ w. E w.conn) (locally m)
locally-Leads {A = A} {P = P} {E = E} {Q = Q} {m = m} (leads g) =
    leads (λ w p. moved (m w.conn).0 (m w.conn).1 w (g w.conn p))
  where
    moved :
        (r : Result A) (c : Connection) (w : World)
        → Ends Q E r c
        → Ends (λ a v. Q a v.conn) (λ v. E v.conn) r (record w { conn = c })
    moved (ok a) c w h = h
    moved (err e) c w h = h

module _ (F : Foreign) where
  new_statement-Leads :
      (cid sid : ℕ) (params : List Param)
      → Leads
          (λ c. IsCoherent Cached c × (length c.statements ≡ sid))
          (λ ps. IsCoherent (Pending F.pid sid))
          (IsCoherent Cached)
          (new_statement F cid params)
  unfolding new_statement IsCoherent
  new_statement-Leads cid sid params = leads (λ c (h, e). (
    h.0,
    rw (numbers-append c.statements _, ← e, ← length-numbers c.statements)
        (new_number-Pending F.pid c.caches (numbers c.statements) c.max_prepared_statements h.1),
  ))

  store_statement-Leads :
      (style : Style) (key : Text × List Param) (sid : ℕ)
      → Leads
          (IsCoherent (Room style F.pid sid))
          (λ t. IsCoherent Cached)
          (IsCoherent Cached)
          (store_statement F style key sid)
  unfolding store_statement IsCoherent
  store_statement-Leads style key sid = leads (λ c h. (
    h.0,
    stored-Cached style F.pid (key, sid) c.caches (numbers c.statements) c.max_prepared_statements
        h.1,
  ))

  cleared-Leads :
      (style : Style) (sid : ℕ)
      → Leads
          (Holds (Pending F.pid sid))
          (λ (t : Unit {0}). Holds (Room style F.pid sid))
          (Holds Cached)
          (locally (modify (with_caches (update_cache style F.pid (λ k. record k { ps = [] })))))
  unfolding IsCoherent
  cleared-Leads style sid = leads (λ w h. (
    h.0,
    (
      Pending-Shrinks F.pid sid w.conn.caches _ (numbers w.conn.statements)
          w.conn.max_prepared_statements
          (λ q.
            update_cache-Shrunk (λ k. record k { ps = [] }) F.pid q style w.conn.caches
              (λ k. inr refl))
          h.1,
      rw (cache_of-update_cache (λ k. record k { ps = [] }) F.pid style w.conn.caches)
          (omega arith),
    ),
  ))

  evict-Leads :
      (fuel sid : ℕ) (style : Style)
      → Leads
          (Holds (Pending F.pid sid))
          (λ t. Holds (Room style F.pid sid))
          (Holds Cached)
          (evict F fuel style)
  unfolding evict IsCoherent
  evict-Leads fuel sid style = leads (λ w h.
      elim (Bool-cases
        (ltb w.conn.max_prepared_statements (length (cache_of style F.pid w.conn.caches).ps))) [
          | inl full ↦ rw full (
              Leads_lem
                (bind-Leads
                  (Keeps-Leads
                    (close_all-Keeps (Pending F.pid sid)
                      (Shrinks-Clears (Pending F.pid sid) (Pending-Shrinks F.pid sid))
                      (handle_messages F fuel 0)
                      (handle_messages-Keeps (Pending F.pid sid)
                        (Shrinks-Clears (Pending F.pid sid) (Pending-Shrinks F.pid sid)) F fuel 0)
                      (statement_ids (cache_of style F.pid w.conn.caches)))
                    (λ v. Pending-Cached F.pid sid v.conn))
                  (λ t. cleared-Leads style sid))
                w h)
          | inr room ↦ rw room (h.0, (h.1, ground arith))
        ])

  pending-Leads :
      {A : Type 0} (sid : ℕ) {m : Action World A}
      → Keeps (Holds (Pending F.pid sid)) m
      → Leads (Holds (Pending F.pid sid)) (λ a. Holds (Pending F.pid sid)) (Holds Cached) m
  pending-Leads sid keeps = Keeps-Leads keeps (λ w. Pending-Cached F.pid sid w.conn)

  -- From the new statement to the cache that holds it.
  prepare-Leads :
      (fuel cid sid : ℕ) (style : Style) (operation statement : Text) (params : List Param)
      → Leads
          (λ w. IsCoherent Cached w.conn × (length w.conn.statements ≡ sid))
          (λ (s : ℕ). Holds Cached)
          (Holds Cached)
          (prepare_as F fuel cid sid style operation statement params)
  unfolding prepare_as
  prepare-Leads fuel cid sid style operation statement params =
      let T : Tracked = Pending F.pid sid in
      let shrinks : Shrinks T = Pending-Shrinks F.pid sid in
      bind-Leads (locally-Leads (new_statement-Leads cid sid params)) (λ ps.
        bind-Leads
          (pending-Leads sid (
            locally-Keeps T (Shrinks-Clears T shrinks)
              (send_parse-Keeps F T shrinks ps.statement_name_bin statement params)))
          (λ t1.
            bind-Leads
              (pending-Leads sid (handle_messages-Keeps T (Shrinks-Clears T shrinks) F fuel cid))
              (λ t2.
                bind-Leads
                  (pending-Leads sid (
                    locally-Keeps T (Shrinks-Clears T shrinks)
                      (finish_statement-Keeps F T shrinks sid ps.statement_name_bin params)))
                  (λ t3. bind-Leads (evict-Leads fuel sid style) (λ t4.
                    bind-Leads (locally-Leads (store_statement-Leads style (operation, params) sid))
                      (λ t5. leads (λ w h. h)))))))

  prepare-Keeps :
      (fuel cid : ℕ) (style : Style) (operation statement : Text) (params : List Param)
      → Keeps (Holds Cached) (prepare F fuel cid style operation statement params)
  unfolding prepare
  prepare-Keeps fuel cid style operation statement params = each (λ w h. both _ _ (
      Leads_lem (prepare-Leads fuel cid (length w.conn.statements) style operation statement params)
        w (h, refl)))
    where
      both :
          (r : Result ℕ) (w : World)
          → Ends (λ (s : ℕ). Holds Cached) (Holds Cached) r w
          → Holds Cached w
      both (ok s) w h = h
      both (err e) w h = h

  found_or_prepared-Keeps :
      (fuel cid : ℕ) (style : Style) (operation statement : Text) (params : List Param)
      (found : Option ℕ)
      → Keeps (Holds Cached) (found_or_prepared F fuel cid style operation statement params found)
  unfolding found_or_prepared
  found_or_prepared-Keeps fuel cid style operation statement params (some sid) =
      then-Keeps
        (locally-Keeps Cached (Shrinks-Clears Cached Cached-Shrinks)
          (on_cursor-Keeps Cached cid (set_ps sid)))
        (lift-Keeps _)
  found_or_prepared-Keeps fuel cid style operation statement params none =
      prepare-Keeps fuel cid style operation statement params

  pub execute-Keeps :
      (fuel cid : ℕ) (operation : Text) (vals : Vals)
      → Keeps (Holds Cached) (execute F fuel cid operation vals)
  unfolding execute
  execute-Keeps fuel cid operation vals =
      let clears : Clears Cached = Shrinks-Clears Cached Cached-Shrinks in
      search
        (
          keeping,
          locally-Keeps Cached clears,
          style_of-Keeps Cached,
          converted-Keeps F Cached Cached-Shrinks,
          found_or_prepared-Keeps,
          send_bind-Keeps F Cached Cached-Shrinks,
          read_answer-Keeps F Cached Cached-Shrinks,
        )
        depth 40 fits 5000

-- Whatever the server answers, and also where execute raises, it keeps the connection coherent, and of
-- its caches that what is cached exists, no two cached statements of a process have the same number,
-- in whatever styles, and no cache holds more than max_prepared_statements and one.
pub execute-IsCoherent :
    (F : Foreign) (fuel cid : ℕ) (operation : Text) (vals : Vals) (w : World)
    → IsCoherent Cached w.conn
    → IsCoherent Cached (execute F fuel cid operation vals w).1.conn
execute-IsCoherent F fuel cid operation vals w h =
    Keeps_lem (execute-Keeps F fuel cid operation vals) w h
