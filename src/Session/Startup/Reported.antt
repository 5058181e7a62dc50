-- ===== src/Session/Startup/Reported.antt =====
-- The protocol version that a start-up leaves.
use mathlib.Core.Path.{subst}
use mathlib.Core.List.{Memᴰ}
use amazon_redshift_python_d.Prelude.{
  ℕ, ◌≡◌, refl, sym, ap, ◌∙◌, Bool, true, false, not, ◌&&◌, ◌⊎◌, inl, inr, Bool-cases, List, [],
  ◌∷◌, arith, if◌then◌else◌,
}
use amazon_redshift_python_d.Prelude.Int.{ℤ, pos, negsuc, ◌≤ℤ◌, ltb_ℤ}
use amazon_redshift_python_d.Prelude.Action.{Action, modify}
use amazon_redshift_python_d.Prelude.Result.{Result, ok, err}
use amazon_redshift_python_d.Prelude.Keeps.{
  Keeps, each, Leads, Leads_lem, leads, Ends, bind-Leads, Keeps-Leads,
}
use amazon_redshift_python_d.Prelude.Text.{Bytes, str_int, codes, text_eq, text_eq_sound}
use amazon_redshift_python_d.Types.Protocol.{base_server}
use amazon_redshift_python_d.Connection.{Connection, Foreign}
use amazon_redshift_python_d.Connection.Messages.{World, locally, raise_error}
use amazon_redshift_python_d.Connection.Sending.{write}
use amazon_redshift_python_d.Connection.Status.{set_protocol}
use amazon_redshift_python_d.Session.Startup.{has_status, settle_protocol, start_up, startup_loop}
use amazon_redshift_python_d.Session.Startup.Connect.{connect, password_of, started, user_given}
use amazon_redshift_python_d.Session.Startup.Params.{
  Options, encode_params, init_params, startup_message,
}
use amazon_redshift_python_d.Session.Startup.Kept.{Returns, Returns_lem, returns, >>=-Returns}

-- A ParameterStatus that is kept has told of the version.
pub IsReported : ℤ → List (Bytes × Bytes) → Type 0
IsReported version statuses = Memᴰ (codes "server_protocol_version", str_int version) statuses

-- The protocol version is not above that of the base server, or it is one that the server reported.
abbrev pub Reported : Connection → Type 0
Reported c =
    (c.client_protocol_version ≤ℤ base_server)
    ⊎ IsReported c.client_protocol_version c.parameter_statuses

-- What has_status finds is there.
has_status-Memᴰ :
    (key value : Bytes) (statuses : List (Bytes × Bytes))
    → has_status key value statuses ≡ true
    → Memᴰ (key, value) statuses
unfolding has_status
has_status-Memᴰ key value [] e = cc e
has_status-Memᴰ key value ((k, v) ∷ rest) e = elim (Bool-cases (text_eq k key)) [
  | inl same ↦ elim (Bool-cases (text_eq v value)) [
    | inl also ↦ Memᴰ.head (
        ap (λ k. (k, value)) (sym (text_eq_sound k key same))
        ∙ ap (λ v. (k, v)) (sym (text_eq_sound v value also)))
    | inr other ↦ Memᴰ.tail (has_status-Memᴰ key value rest (rw (same, other) at e))
  ]
  | inr other ↦ Memᴰ.tail (has_status-Memᴰ key value rest (rw other at e))
]

not_above : (version : ℤ) → ltb_ℤ base_server version ≡ false → version ≤ℤ base_server
not_above (pos n) e = ground arith
not_above (negsuc n) e = ground arith

either-Reported :
    (a b : Bool) (c : Connection)
    → ltb_ℤ base_server c.client_protocol_version ≡ a
    → has_status
        (codes "server_protocol_version")
        (str_int c.client_protocol_version)
        c.parameter_statuses
      ≡ b
    → Reported (if a && not b then set_protocol base_server c else c)
unfolding set_protocol IsReported
either-Reported true true c p q = inr (has_status-Memᴰ _ _ c.parameter_statuses q)
either-Reported true false c p q = inl (ground arith)
either-Reported false b c p q = inl (not_above c.client_protocol_version p)

settle_protocol-Reported : (c : Connection) → Reported (settle_protocol c)
unfolding settle_protocol
settle_protocol-Reported c = either-Reported _ _ c refl refl

anything : {A : Type 0} (m : Action World A) → Keeps (λ w. Unit {0}) m
anything m = each (λ w h. tt)

settled-Leads :
    Leads
      (λ (w : World). Unit {0})
      (λ (t : Unit {0}) w. Reported w.conn)
      (λ w. Unit {0})
      (locally (modify settle_protocol))
settled-Leads = leads (λ w h. settle_protocol-Reported w.conn)

quiet-Leads :
    Leads
      (λ (w : World). Reported w.conn)
      (λ (t : Unit {0}) w. Reported w.conn)
      (λ w. Unit {0})
      (locally (modify (λ c. record c { in_transaction = false })))
quiet-Leads = leads (λ w h. h)

start_up-Leads :
    (F : Foreign) (fuel : ℕ) (message : Bytes)
    → Leads
        (λ (w : World). Unit {0})
        (λ (t : Unit {0}) w. Reported w.conn)
        (λ w. Unit {0})
        (start_up F fuel message)
unfolding start_up
start_up-Leads F fuel message =
    bind-Leads (Keeps-Leads (anything (locally (write message))) (λ w h. h)) (λ t.
      bind-Leads (Keeps-Leads (anything (startup_loop F fuel)) (λ w h. h)) (λ u.
        bind-Leads (Keeps-Leads (anything (locally raise_error)) (λ w h. h))
          (λ v. bind-Leads settled-Leads (λ x. quiet-Leads))))

started-Reported :
    (r : Result (Unit {0})) (w : World)
    → Ends (λ (t : Unit {0}) v. Reported v.conn) (λ v. Unit {0}) r w
    → Returns (λ v. Reported v.conn) (started (r, w))
unfolding started
started-Reported (ok t) w h = returns (λ v e. subst (λ (u : World). Reported u.conn) (same w v e) h)
  where
    same : (w v : World) → ok w ≡ ok v → w ≡ v
    same w v e = cc
started-Reported (err x) w h = returns (λ v e. cc)

connect-Reports :
    (F : Foreign) (fuel : ℕ) (o : Options) (input : Bytes)
    → Returns (λ w. Reported w.conn) (connect F fuel o input)
unfolding connect
connect-Reports F fuel o input = >>=-Returns (user_given o.user) _ (λ given.
    >>=-Returns (encode_params (init_params o)) _ (λ params.
      >>=-Returns (password_of o.password) _ (λ password.
        >>=-Returns (startup_message params) _
          (λ message. started-Reported _ _ (Leads_lem (start_up-Leads F fuel message) _ tt)))))

-- A connection that start-up returned speaks a protocol version that is not above that of the base server,
-- or one that a ParameterStatus of the server has reported under the name server_protocol_version.
pub connect-Reported :
    (F : Foreign) (fuel : ℕ) (o : Options) (input : Bytes) (w : World)
    → connect F fuel o input ≡ ok w
    → (w.conn.client_protocol_version ≤ℤ base_server)
      ⊎ IsReported w.conn.client_protocol_version w.conn.parameter_statuses
connect-Reported F fuel o input w e = Returns_lem (connect-Reports F fuel o input) w e
