-- ===== src/Connection/Messages/Merge.antt =====
-- `handle_messages_merge_socket_read`, which reads a message's body together with the header of the
-- next one, against `handle_messages`.
use mathlib.Core.List.{append_assoc, append-nil}
use amazon_redshift_python_d.Prelude.{
  ℕ, zero, suc, ◌+◌, ◌-◌, ◌<◌, ◌≡◌, ◌∙◌, refl, sym, true, List, [], ◌∷◌, ◌++◌, arith, ◌==◌, length,
  take, drop, take-append_length, drop-append_length, length-append,
}
use amazon_redshift_python_d.Prelude.Int.{ℤ, pos}
use amazon_redshift_python_d.Prelude.Result.{Result, ok, err}
use amazon_redshift_python_d.Prelude.Action.{continue}
use amazon_redshift_python_d.Prelude.Text.{Bytes, drop_last, take_last}
use amazon_redshift_python_d.Connection.{Connection, Foreign}
use amazon_redshift_python_d.Connection.Sending
use amazon_redshift_python_d.Connection.Messages.{
  World, read, handle_messages, merge_loop, merge_start, handle_messages_merge_socket_read,
}
use amazon_redshift_python_d.Connection.Messages.Stream.{
  Message, IsMessage, IsInner, Inner, frames, world, minus_four_lem, effect, run, dispatch-effect,
  Follows, Follows-continue, around-process, handle_messages-process,
}
use amazon_redshift_python_d.Wire.{i, pack, ci_unpack, unpack}
use amazon_redshift_python_d.Wire.RoundTrip.{
  unpack-pack, ci_unpack-create_message, create_message_parts, length-pack,
}

-- The five bytes of a message's header.
record Header (m : Message) : Type 0 where
  bytes : Bytes
  five : length bytes ≡ 5
  splits : m.frame ≡ bytes ++ m.body
  reads : ci_unpack bytes ≡ ok (m.code, pos (length m.body + 4))

header_reads :
    (code n : ℕ) (len : Bytes) → pack i (pos n) ≡ ok len → ci_unpack (code ∷ len) ≡ ok (code, pos n)
unfolding ci_unpack
header_reads code n len packed =
    let read_len : unpack i len 0 ≡ ok (pos n) =
      rw append-nil at (unpack-pack i (pos n) [] len [] packed) in
    rw read_len

Header-of : (m : Message) → IsMessage m → Header m
Header-of m v =
    let (len, packed, parts) = create_message_parts m.code m.body m.frame v.framed in
    let four : length len ≡ 4 = length-pack i (pos (length m.body + 4)) len packed in
    record {
      bytes = m.code ∷ len;
      five = omega arith;
      splits = parts;
      reads = header_reads m.code (length m.body + 4) len packed;
    }

cut_five : (a b : Bytes) → length b ≡ 5 → length (a ++ b) - 5 ≡ length a
cut_five a b five = omega (arith, length-append {0} a b)

drop_last_five : (a b : Bytes) → length b ≡ 5 → drop_last 5 (a ++ b) ≡ a
drop_last_five a b five = rw (cut_five a b five) (take-append_length a b)

take_last_five : (a b : Bytes) → length b ≡ 5 → take_last 5 (a ++ b) ≡ b
take_last_five a b five = rw (cut_five a b five) (drop-append_length a b)

-- What one read of a body and the next header takes.
take_both : (a b rest : Bytes) → length b ≡ 5 → take (length a + 4 + 1) (a ++ (b ++ rest)) ≡ a ++ b
take_both a b rest five = rw (← both, ← append_assoc a b rest) (take-append_length (a ++ b) rest)
  where
    both : length (a ++ b) ≡ length a + 4 + 1
    both = omega (arith, length-append {0} a b)

drop_both : (a b rest : Bytes) → length b ≡ 5 → drop (length a + 4 + 1) (a ++ (b ++ rest)) ≡ rest
drop_both a b rest five = rw (← both, ← append_assoc a b rest) (drop-append_length (a ++ b) rest)
  where
    both : length (a ++ b) ≡ length a + 4 + 1
    both = omega (arith, length-append {0} a b)

-- Two outcomes of a loop: what was returned or raised, the connection and, without an exception,
-- the bytes left to read.
pub record Same (a b : Result (Unit {0}) × World) : Type 0 where
  pub result : a.0 ≡ b.0
  pub conn : a.1.conn ≡ b.1.conn
  pub left : b.0 ≡ ok tt → a.1.input ≡ b.1.input

both :
    {a b : Result (Unit {0}) × World} {want : Result (Unit {0}) × Connection} {rest : Bytes}
    → Follows a want rest
    → Follows b want rest
    → Same a b
both f g = record {
  result = f.result ∙ sym g.result;
  conn = f.conn ∙ sym g.conn;
  left = λ p. f.left (sym g.result ∙ p) ∙ sym (g.left (sym g.result ∙ p));
}

module _ (F : Foreign) (cid : ℕ) where
  abbrev len_of : Message → ℤ
  len_of m = pos (length m.body + 4)

  -- One round on a message that another one follows.
  merge_loop_message :
      (fuel : ℕ) (m n : Message) (c : Connection) (rest : Bytes)
      → IsInner m
      → IsMessage n
      → merge_loop F (suc fuel) cid m.code (len_of m) (world c (m.body ++ (n.frame ++ rest)))
        ≡ continue
            (effect F cid m c).0
            (world (effect F cid m c).1 (n.body ++ rest))
            (λ _ w. merge_loop F fuel cid n.code (len_of n) w)
  unfolding merge_loop read
  merge_loop_message fuel m n c rest im v =
      let next = Header-of n v in
      let split : n.frame ++ rest ≡ next.bytes ++ (n.body ++ rest) =
        rw next.splits (append_assoc next.bytes n.body rest) in
      rw (im.not_ready, merge_loop)
        (rw
          (
            split,
            take_both m.body next.bytes (n.body ++ rest) next.five,
            drop_both m.body next.bytes (n.body ++ rest) next.five,
            drop_last_five m.body next.bytes next.five,
            take_last_five m.body next.bytes next.five,
          )
          (rw (dispatch-effect F cid _ m c (n.body ++ rest) im.message) (simp next.reads)))

  -- The last round.
  merge_loop_last :
      (fuel : ℕ) (z : Message) (c : Connection) (rest : Bytes)
      → IsMessage z
      → (z.code == Sending.ready_for_query) ≡ true
      → merge_loop F (suc fuel) cid z.code (len_of z) (world c (z.body ++ rest))
        ≡ ((effect F cid z c).0, world (effect F cid z c).1 rest)
  unfolding merge_loop read
  merge_loop_last fuel z c rest v ready =
      rw (ready, merge_loop)
        (rw (minus_four_lem, take-append_length, drop-append_length)
          (dispatch-effect F cid _ z c rest v))

  last_round :
      (fuel : ℕ) (z : Message) (c : Connection) (rest : Bytes)
      → IsMessage z
      → (z.code == Sending.ready_for_query) ≡ true
      → Follows
          (merge_loop F (suc fuel) cid z.code (len_of z) (world c (z.body ++ rest)))
          (run F cid (z ∷ []) c)
          rest
  unfolding run
  last_round fuel z c rest v ready =
      rw (merge_loop_last fuel z c rest v ready) (ends (effect F cid z c).0 (effect F cid z c).1)
    where
      ends :
          (r : Result (Unit {0})) (d : Connection)
          → Follows (r, world d rest) (continue r d (λ _ e. (ok tt, e))) rest
      ends (ok u) d = record { result = refl; conn = refl; left = λ p. refl }
      ends (err e) d = record { result = refl; conn = refl; left = λ p. cc }

  -- The loop from the header of a message on.
  merge_loop-run :
      (m : Message) (ms : List Message) (z : Message) (fuel : ℕ) (c : Connection) (rest : Bytes)
      → IsInner m
      → Inner ms
      → IsMessage z
      → (z.code == Sending.ready_for_query) ≡ true
      → suc (length ms) < fuel
      → Follows
          (merge_loop F fuel cid m.code
            (len_of m)
            (world c (m.body ++ frames ms (z.frame ++ rest))))
          (run F cid (m ∷ (ms ++ (z ∷ []))) c)
          rest
  unfolding run
  merge_loop-run m ms z zero c rest im inner v ready lt = absurd (omega arith)
  merge_loop-run m [] z (suc zero) c rest im inner v ready lt = absurd (omega arith)
  merge_loop-run m [] z (suc (suc fuel)) c rest im inner v ready lt =
      rw (merge_loop_message (suc fuel) m z c rest im v) (
        Follows-continue (effect F cid m c).0 (effect F cid m c).1 (z.body ++ rest) rest
          (λ w. merge_loop F (suc fuel) cid z.code (len_of z) w) (run F cid (z ∷ []))
          (last_round fuel z (effect F cid m c).1 rest v ready))
  merge_loop-run m (n ∷ ms) z (suc fuel) c rest im (in', inner) v ready lt =
      rw (merge_loop_message fuel m n c (frames ms (z.frame ++ rest)) im in'.message) (
        Follows-continue (effect F cid m c).0 (effect F cid m c).1
          (n.body ++ frames ms (z.frame ++ rest)) rest
          (λ w. merge_loop F fuel cid n.code (len_of n) w) (run F cid (n ∷ (ms ++ (z ∷ []))))
          (merge_loop-run n ms z fuel (effect F cid m c).1 rest in' inner v ready (omega arith)))

  -- The header of the first message, and the loop.
  start_at :
      (fuel : ℕ) (m : Message) (c : Connection) (rest : Bytes)
      → IsMessage m
      → merge_start F fuel cid (world c (m.frame ++ rest))
        ≡ merge_loop F fuel cid m.code (len_of m) (world c (m.body ++ rest))
  unfolding merge_start read
  start_at fuel m c rest v =
      let (header, behind) = ci_unpack-create_message m.code m.body m.frame rest v.framed in
      rw (header, behind)

  merge_start-run :
      (ms : List Message) (z : Message) (fuel : ℕ) (c : Connection) (rest : Bytes)
      → Inner ms
      → IsMessage z
      → (z.code == Sending.ready_for_query) ≡ true
      → length ms < fuel
      → Follows
          (merge_start F fuel cid (world c (frames ms (z.frame ++ rest))))
          (run F cid (ms ++ (z ∷ [])) c)
          rest
  merge_start-run ms z zero c rest inner v ready lt = absurd (omega arith)
  merge_start-run [] z (suc fuel) c rest inner v ready lt =
      rw (start_at (suc fuel) z c rest v) (last_round fuel z c rest v ready)
  merge_start-run (m ∷ ms) z (suc fuel) c rest (im, inner) v ready lt =
      rw (start_at (suc fuel) m c (frames ms (z.frame ++ rest)) im.message)
        (merge_loop-run m ms z (suc fuel) c rest im inner v ready (omega arith))

  -- On a stream of messages up to a ReadyForQuery, with fuel for each of them, the reads that join a
  -- body to the next header change nothing: `handle_messages_merge_socket_read` returns or raises
  -- what `handle_messages` does, with the same connection, and both leave the same bytes to read
  -- where they raise nothing.
  pub merge_socket_read-Same :
      (ms : List Message) (z : Message) (fuel : ℕ) (c : Connection) (rest : Bytes)
      → Inner ms
      → IsMessage z
      → (z.code == Sending.ready_for_query) ≡ true
      → length ms < fuel
      → Same
          (handle_messages_merge_socket_read F fuel cid (world c (frames ms (z.frame ++ rest))))
          (handle_messages F fuel cid (world c (frames ms (z.frame ++ rest))))
  unfolding handle_messages_merge_socket_read
  merge_socket_read-Same ms z fuel c rest inner v ready lt =
      both
        (around-process F cid (merge_start F fuel cid) (ms ++ (z ∷ [])) c
          (frames ms (z.frame ++ rest)) rest
          (λ d. merge_start-run ms z fuel d rest inner v ready lt))
        (handle_messages-process F cid ms z fuel c rest inner v ready lt)
