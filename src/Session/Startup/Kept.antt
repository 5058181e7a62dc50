-- ===== src/Session/Startup/Kept.antt =====
-- A start-up that returned leaves a coherent connection.
use mathlib.Core.Path.{subst}
use amazon_redshift_python_d.Prelude.{ℕ, zero, suc, ◌≡◌, refl, Bool, true, false, Option, arith}
use amazon_redshift_python_d.Prelude.Action.{modify}
use amazon_redshift_python_d.Prelude.Result.{Result, ok, err, ◌>>=◌}
use amazon_redshift_python_d.Prelude.Keeps.{
  Keeps, Keeps_lem, each, modify-Keeps, bind-Keeps, then-Keeps, lift-Keeps, keeping,
}
use amazon_redshift_python_d.Prelude.Text.{Bytes}
use amazon_redshift_python_d.Types.Protocol.{base_server}
use amazon_redshift_python_d.Connection.{Connection, Foreign}
use amazon_redshift_python_d.Connection.Coherent.{IsCoherent}
use amazon_redshift_python_d.Connection.Execute.Kept.{Cached, Cached-Shrinks, Holds, Shrinks-Clears}
use amazon_redshift_python_d.Connection.Messages.{World, Step, message_type}
use amazon_redshift_python_d.Connection.Messages.Kept.{
  Clears, local_handler-Keeps, read-Keeps, raise_error-Keeps,
}
use amazon_redshift_python_d.Wire.{ci_unpack}
use amazon_redshift_python_d.Connection.Sending.Kept.{write-Keeps}
use amazon_redshift_python_d.Connection.Status.{set_protocol}
use amazon_redshift_python_d.Connection.Status.Kept.{set_protocol-IsCoherent, either}
use amazon_redshift_python_d.Session.Invariant.{here-Keeps}
use amazon_redshift_python_d.Session.Startup.{
  new_connection, settle_protocol, start_up, startup_complete, startup_handler, startup_loop,
}
use amazon_redshift_python_d.Session.Startup.Connect.{connect, password_of, started, user_given}
use amazon_redshift_python_d.Session.Startup.Params.{
  Options, encode_params, init_params, startup_message, user_of,
}

new_connection-IsCoherent :
    (o : Options) (user : Bytes) (password : Option Bytes)
    → IsCoherent Cached (new_connection o user password)
unfolding new_connection IsCoherent
new_connection-IsCoherent o user password = (
  record {
    conversions = λ oid. refl;
    few_notices = omega arith;
    few_notifications = omega arith;
    few_parameter_statuses = omega arith;
  },
  λ pid. record { small = tt; known = tt; distinct = tt },
)

settle_protocol-Keeps : Keeps (IsCoherent Cached) (modify settle_protocol)
unfolding settle_protocol
settle_protocol-Keeps = modify-Keeps (λ c h.
    either Cached _ (set_protocol base_server c) c (set_protocol-IsCoherent Cached base_server c h)
      h)

in_transaction-Keeps : Keeps (IsCoherent Cached) (modify (λ c. record c { in_transaction = false }))
unfolding IsCoherent
in_transaction-Keeps = modify-Keeps (λ c h. h)

startup_complete-Keeps : (body : Bytes) → Keeps (IsCoherent Cached) (startup_complete body)
unfolding startup_complete
startup_complete-Keeps body = search keeping depth 10

pub data Returns {A : Type 0} (P : A → Type 0) (r : Result A) : Type 0 where
  returns : ((a : A) → r ≡ ok a → P a) → Returns P r

pub Returns_lem :
    {A : Type 0} {P : A → Type 0} {r : Result A} → Returns P r → (a : A) → r ≡ ok a → P a
Returns_lem (returns f) = f

pub >>=-Returns :
    {A B : Type 0} {P : B → Type 0} (r : Result A) (f : A → Result B)
    → ((a : A) → Returns P (f a))
    → Returns P (r >>= f)
>>=-Returns (ok a) f rest = rest a
>>=-Returns (err x) f rest = returns (λ b e. cc)

module _ (F : Foreign) where
  startup_handler-Keeps :
      (code : ℕ) (body : Bytes) → Keeps (IsCoherent Cached) (startup_handler F code body)
  unfolding startup_handler
  startup_handler-Keeps code body =
      search
        (
          keeping,
          startup_complete-Keeps,
          local_handler-Keeps Cached (Shrinks-Clears Cached Cached-Shrinks) F,
        )
        depth 20

  until-Keeps :
      (b : Bool) (loop : Step)
      → Keeps (Holds Cached) loop
      → Keeps {A = Unit {0}} (Holds Cached) (λ v. elim b [ true ↦ (ok tt, v) | false ↦ loop v ])
  until-Keeps true loop keeps = each (λ w h. h)
  until-Keeps false loop keeps = keeps

  startup_loop-Keeps : (fuel : ℕ) → Keeps (Holds Cached) (startup_loop F fuel)
  unfolding startup_loop
  startup_loop-Keeps zero = each (λ w h. h)
  startup_loop-Keeps (suc fuel) =
      let clears : Clears Cached = Shrinks-Clears Cached Cached-Shrinks in
      bind-Keeps (read-Keeps Cached clears _) (λ head.
        bind-Keeps (lift-Keeps (ci_unpack head)) (λ code_len.
          then-Keeps (lift-Keeps (message_type code_len.0)) (
            bind-Keeps (read-Keeps Cached clears _) (λ body.
              then-Keeps (here-Keeps (startup_handler-Keeps code_len.0 body))
                (until-Keeps _ (startup_loop F fuel) (startup_loop-Keeps fuel))))))

  start_up-Keeps : (fuel : ℕ) (message : Bytes) → Keeps (Holds Cached) (start_up F fuel message)
  unfolding start_up
  start_up-Keeps fuel message =
      search
        (
          keeping,
          here-Keeps,
          write-Keeps Cached,
          startup_loop-Keeps,
          raise_error-Keeps Cached (Shrinks-Clears Cached Cached-Shrinks),
          settle_protocol-Keeps,
          in_transaction-Keeps,
        )
        depth 20

  started-ok : (r : Result (Unit {0}) × World) (w : World) → started r ≡ ok w → r ≡ (ok tt, w)
  unfolding started
  started-ok (ok t, v) w e = cc
  started-ok (err x, v) w e = cc

  started-Returns :
      (message : Bytes) (c : Connection) (fuel : ℕ) (input : Bytes)
      → IsCoherent Cached c
      → Returns
          (Holds Cached)
          (started (start_up F fuel message (record { conn = c; input = input })))
  started-Returns message c fuel input h = returns (λ w e.
      let same = started-ok (start_up F fuel message (record { conn = c; input = input })) w e in
      subst (λ (r : Result (Unit {0}) × World). Holds Cached r.1) same
        (Keeps_lem (start_up-Keeps fuel message) (record { conn = c; input = input }) h))

  -- A connection that start-up returned is coherent, whatever the options and the server's answer.
  pub connect-Returns :
      (fuel : ℕ) (o : Options) (input : Bytes) → Returns (Holds Cached) (connect F fuel o input)
  unfolding connect
  connect-Returns fuel o input = >>=-Returns (user_given o.user) _ (λ given.
      >>=-Returns (encode_params (init_params o)) _ (λ params.
        >>=-Returns (password_of o.password) _ (λ password.
          >>=-Returns (startup_message params) _ (λ message.
            started-Returns message (new_connection o (user_of params) password) fuel input
              (new_connection-IsCoherent o (user_of params) password)))))
