-- ===== src/Connection/Messages/Stream.antt =====
-- The loop of `handle_messages` on a stream of well-formed messages: it runs the handlers in the
-- order of the messages up to the first ReadyForQuery.
use amazon_redshift_python_d.Prelude.{
  ℕ, zero, suc, ◌+◌, ◌<◌, ◌≡◌, inl, inr, refl, sym, Bool, true, false, ◌||◌, none, List, [], ◌∷◌,
  ◌++◌, arith, ◌==◌, if◌then◌else◌, length, Bool-cases, take-append_length, drop-append_length,
}
use mathlib.Core.Path.{subst}
use amazon_redshift_python_d.Prelude.Int.{pos}
use amazon_redshift_python_d.Prelude.Result.{Result, ok, err, key_error}
use amazon_redshift_python_d.Prelude.Action.{continue, ◌>>=◌, ◌>>◌}
use amazon_redshift_python_d.Prelude.Text.{Bytes}
use amazon_redshift_python_d.Connection.{Connection, Handler, Foreign}
use amazon_redshift_python_d.Connection.Sending
use amazon_redshift_python_d.Connection.Messages.{
  World, Step, read, minus_four, tag, count_rows, drops_statements, handle_command_complete,
  local_handler, is_message_type, message_type, dispatch, read_loop, around, locally,
  handle_messages, clear_error, raise_error,
}
use amazon_redshift_python_d.Wire.{create_message}
use amazon_redshift_python_d.Wire.RoundTrip.{ci_unpack-create_message}

-- A message of the server, with its bytes on the wire.
pub record Message : Type 0 where
  pub code : ℕ
  pub body : Bytes
  pub frame : Bytes

-- The bytes are those of the code and the body, and a CommandComplete closes no statements.
pub record IsMessage (m : Message) : Type 0 where
  pub framed : create_message m.code m.body ≡ ok m.frame
  pub keeps_statements :
      (m.code == Sending.command_complete) ≡ true → drops_statements (tag m.body) ≡ false

-- A message before the end of the answer.
pub record IsInner (m : Message) : Type 0 where
  pub message : IsMessage m
  pub not_ready : (m.code == Sending.ready_for_query) ≡ false

abbrev pub Inner : List Message → Type 0
Inner [] = Unit {0}
Inner (m ∷ ms) = IsInner m × Inner ms

abbrev pub frames : List Message → Bytes → Bytes
frames [] rest = rest
frames (m ∷ ms) rest = m.frame ++ frames ms rest

abbrev pub world : Connection → Bytes → World
world c input = record { conn = c; input = input }

pub minus_four_lem : (n : ℕ) → minus_four (pos (n + 4)) ≡ pos n
minus_four_lem n = ground arith

module _ (F : Foreign) (cid : ℕ) where
  -- What a message does to the connection.
  pub effect : Message → Handler
  unfolding count_rows local_handler
  effect m c =
      if m.code == Sending.command_complete
      then count_rows cid (tag m.body) c
      else local_handler F m.code cid m.body c

  -- The messages one after the other, up to the first exception.
  unfoldable pub run : List Message → Handler
  run [] c = (ok tt, c)
  run (m ∷ ms) c = continue (effect m c).0 (effect m c).1 (λ _. run ms)

  -- A bind whose rest does nothing.
  continue-pure : (r : Result (Unit {0})) (w : World) → continue r w (λ _ v. (ok tt, v)) ≡ (r, w)
  continue-pure (ok u) w = refl
  continue-pure (err e) w = refl

  complete-effect :
      (nested : Step) (body : Bytes) (c : Connection) (input : Bytes)
      → drops_statements (tag body) ≡ false
      → handle_command_complete nested cid body (world c input)
        ≡ ((count_rows cid (tag body) c).0, world (count_rows cid (tag body) c).1 input)
  complete-effect nested body c input keeps =
      unfold handle_command_complete in
      rw keeps (
        continue-pure (count_rows cid (tag body) c).0 (world (count_rows cid (tag body) c).1 input))

  pub dispatch-effect :
      (nested : Step) (m : Message) (c : Connection) (input : Bytes)
      → IsMessage m
      → dispatch F nested m.code cid m.body (world c input)
        ≡ ((effect m c).0, world (effect m c).1 input)
  unfolding dispatch effect
  dispatch-effect nested m c input v = elim (Bool-cases (m.code == Sending.command_complete)) [
    | inl complete ↦
        rw complete (complete-effect nested m.body c input (v.keeps_statements complete))
    | inr other ↦ rw other
  ]

-- A loop over the input has the result and the connection of an action on the connection and, if it
-- succeeds, leaves `rest` unread.
pub record Follows (got : Result (Unit {0}) × World) (want : Result (Unit {0}) × Connection)
    (rest : Bytes) : Type 0 where
  pub result : got.0 ≡ want.0
  pub conn : got.1.conn ≡ want.1
  pub left : want.0 ≡ ok tt → got.1.input ≡ rest

pub Follows-continue :
    (r : Result (Unit {0})) (c : Connection) (before rest : Bytes) (f : Step) (g : Handler)
    → Follows (f (world c before)) (g c) rest
    → Follows (continue r (world c before) (λ _. f)) (continue r c (λ _. g)) rest
Follows-continue (ok u) c before rest f g h = h
Follows-continue (err e) c before rest f g h = record { result = refl; conn = refl; left = λ p. cc }

-- The step behind a bind: `raise_error` and `clear_error` stay off the input.
pub Follows-bind :
    (m : Step) (w : World) (n : Handler) (c : Connection) (rest : Bytes) (f : Step) (g : Handler)
    → Follows (m w) (n c) rest
    → ((d : Connection) (input : Bytes) → Follows (f (world d input)) (g d) input)
    → Follows ((m >>= λ _. f) w) ((n >>= λ _. g) c) rest
Follows-bind m w n c rest f g h k = go (m w) (n c) h
  where
    at_rest : (v : World) (d : Connection) → v.conn ≡ d → v.input ≡ rest → v ≡ world d rest
    at_rest v d p q = λ i. record { conn = p i; input = q i }

    go :
        (got : Result (Unit {0}) × World) (want : Result (Unit {0}) × Connection)
        → Follows got want rest
        → Follows (continue got.0 got.1 (λ _. f)) (continue want.0 want.1 (λ _. g)) rest
    go (r, v) (err e, d) h' =
        rw h'.result (record { result = refl; conn = h'.conn; left = λ p. cc })
    go (r, v) (ok u, d) h' = rw h'.result (
        subst (λ x. Follows (f x) (g d) rest) (sym (at_rest v d h'.conn (h'.left refl))) (k d rest))

or-false : (a b : Bool) → (a || b) ≡ false → (a ≡ false) × (b ≡ false)
or-false false b e = (refl, e)
or-false true b e = cc

module _ (F : Foreign) (cid : ℕ) where
  -- A code without a handler: the lookup raises KeyError.
  pub unknown-effect :
      (m : Message) (c : Connection)
      → is_message_type m.code ≡ false
      → effect F cid m c ≡ (err key_error, c)
  unfolding effect is_message_type local_handler
  unknown-effect m c unknown = ground arith

  -- What follows a message in the loop.
  pub rest_of_loop : Message → ℕ → Step
  rest_of_loop m fuel v = elim (m.code == Sending.ready_for_query) [
    | true ↦ (ok tt, v)
    | false ↦ read_loop F fuel cid v
  ]

  pub loop_ends :
      (fuel : ℕ) (m : Message) (w : World)
      → (m.code == Sending.ready_for_query) ≡ true
      → rest_of_loop m fuel w ≡ (ok tt, w)
  unfolding rest_of_loop
  loop_ends fuel m w ready = rw (rest_of_loop, ready)

  pub loop_goes_on :
      (fuel : ℕ) (m : Message) (w : World)
      → (m.code == Sending.ready_for_query) ≡ false
      → rest_of_loop m fuel w ≡ read_loop F fuel cid w
  unfolding rest_of_loop
  loop_goes_on fuel m w ready = rw (rest_of_loop, ready)

  read_loop_known :
      (fuel : ℕ) (m : Message) (c : Connection) (rest : Bytes)
      → IsMessage m
      → message_type m.code ≡ ok tt
      → read_loop F (suc fuel) cid (world c (m.frame ++ rest))
        ≡ continue (effect F cid m c).0 (world (effect F cid m c).1 rest) (λ _. rest_of_loop m fuel)
  unfolding read_loop read rest_of_loop
  read_loop_known fuel m c rest v known =
      let (header, behind) = ci_unpack-create_message m.code m.body m.frame rest v.framed in
      rw (header, known, minus_four_lem, behind, take-append_length, drop-append_length)
        (rw (dispatch-effect F cid _ m c rest v))

  read_loop_unknown :
      (fuel : ℕ) (m : Message) (c : Connection) (rest : Bytes)
      → IsMessage m
      → message_type m.code ≡ err key_error
      → read_loop F (suc fuel) cid (world c (m.frame ++ rest))
        ≡ (err key_error, world c (m.body ++ rest))
  unfolding read_loop read
  read_loop_unknown fuel m c rest v unknown =
      let (header, behind) = ci_unpack-create_message m.code m.body m.frame rest v.framed in
      rw (header, unknown, behind)

  -- One round of the loop on a message.
  pub read_loop_message :
      (fuel : ℕ) (m : Message) (c : Connection) (rest end : Bytes) (g : Handler)
      → IsMessage m
      → ((d : Connection) → Follows (rest_of_loop m fuel (world d rest)) (g d) end)
      → Follows
          (read_loop F (suc fuel) cid (world c (m.frame ++ rest)))
          (continue (effect F cid m c).0 (effect F cid m c).1 (λ _. g))
          end
  unfolding message_type
  read_loop_message fuel m c rest end g v h = elim (Bool-cases (is_message_type m.code)) [
    | inl known ↦ rw (read_loop_known fuel m c rest v (rw known)) (
        Follows-continue (effect F cid m c).0 (effect F cid m c).1 rest end (rest_of_loop m fuel) g
          (h (effect F cid m c).1))
    | inr unknown ↦
        rw (read_loop_unknown fuel m c rest v (rw unknown), unknown-effect m c unknown)
          (record { result = refl; conn = refl; left = λ p. cc })
  ]

module _ (F : Foreign) (cid : ℕ) where
  pub read_loop-run :
      (ms : List Message) (z : Message) (fuel : ℕ) (c : Connection) (rest : Bytes)
      → Inner ms
      → IsMessage z
      → (z.code == Sending.ready_for_query) ≡ true
      → length ms < fuel
      → Follows
          (read_loop F fuel cid (world c (frames ms (z.frame ++ rest))))
          (run F cid (ms ++ (z ∷ [])) c)
          rest
  unfolding run
  read_loop-run ms z zero c rest inner v ready lt = absurd (omega arith)
  read_loop-run [] z (suc fuel) c rest inner v ready lt =
      read_loop_message F cid fuel z c rest rest (λ d. (ok tt, d)) v
        (λ d.
          rw (loop_ends F cid fuel z (world d rest) ready)
            (record { result = refl; conn = refl; left = λ p. refl }))
  read_loop-run (m ∷ ms) z (suc fuel) c rest (im, inner) v ready lt =
      read_loop_message F cid fuel m c (frames ms (z.frame ++ rest)) rest
        (λ d. run F cid (ms ++ (z ∷ [])) d) im.message
        (λ d.
          rw (loop_goes_on F cid fuel m (world d (frames ms (z.frame ++ rest))) im.not_ready)
            (read_loop-run ms z fuel d rest inner v ready (omega arith)))

  -- The answer to a request: the error is forgotten, the messages run, an error that they left is
  -- raised.
  pub process : List Message → Handler
  unfolding run
  process ms = do clear_error; run F cid ms; raise_error

  pub around-process :
      (loop : Step) (ms : List Message) (c : Connection) (input rest : Bytes)
      → ((d : Connection) → Follows (loop (world d input)) (run F cid ms d) rest)
      → Follows (around loop (world c input)) (process ms c) rest
  unfolding around
  around-process loop ms c input rest follows =
      unfold process in
      Follows-bind loop (world (record c { error = none }) input) (run F cid ms)
        (record c { error = none }) rest (locally raise_error) raise_error
        (follows (record c { error = none }))
        (λ d left. record { result = refl; conn = refl; left = λ p. refl })

  -- On a stream of messages up to a ReadyForQuery, with fuel for each of them, `handle_messages`
  -- returns (it is not stuck): it runs the handlers of the messages in their order up to the first
  -- exception, then raises the error that they left, if any; where it raises nothing, exactly the
  -- bytes behind the ReadyForQuery are left to read.
  pub handle_messages-process :
      (ms : List Message) (z : Message) (fuel : ℕ) (c : Connection) (rest : Bytes)
      → Inner ms
      → IsMessage z
      → (z.code == Sending.ready_for_query) ≡ true
      → length ms < fuel
      → Follows
          (handle_messages F fuel cid (world c (frames ms (z.frame ++ rest))))
          (process (ms ++ (z ∷ [])) c)
          rest
  unfolding handle_messages
  handle_messages-process ms z fuel c rest inner v ready lt =
      around-process (λ w. read_loop F fuel cid w) (ms ++ (z ∷ [])) c (frames ms (z.frame ++ rest))
        rest (λ d. read_loop-run ms z fuel d rest inner v ready lt)
