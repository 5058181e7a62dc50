-- ===== src/Connection/Copy/Sent.antt =====
-- What `handle_COPY_IN_RESPONSE` sends to the server.
use mathlib.Core.Path.{subst}
use mathlib.Core.List.{append_assoc, append-nil}
use amazon_redshift_python_d.Prelude.{
  ℕ, ◌≤◌, ◌≡◌, ◌∙◌, ap, refl, true, false, List, [], ◌∷◌, ◌++◌, arith, length,
}
use amazon_redshift_python_d.Prelude.Result.{Result, ok, ◌>>=◌, >>=-eq-ok}
use amazon_redshift_python_d.Prelude.Action.{then_do}
use amazon_redshift_python_d.Prelude.Text.{Bytes}
use amazon_redshift_python_d.Connection.{Connection, Handler, Stream, open_stream}
use amazon_redshift_python_d.Connection.Copy.{
  copy_in, handle_copy_in_response, has_header, send_chunk, send_chunks, set_stream, stream_of,
}
use amazon_redshift_python_d.Connection.Sending.{write, copy_done_msg, sync_msg}
use amazon_redshift_python_d.Wire.{create_message}
use amazon_redshift_python_d.Wire.RoundTrip.{create_message_parts}
use amazon_redshift_python_d.Wire.RoundTrip.{create_message_parts}

-- It returned, on a connection that is still open, and wrote `bytes` behind what was written.
pub record Wrote (r : Result (Unit {0}) × Connection) (before bytes : Bytes) : Type 0 where
  pub result : r.0 ≡ ok tt
  pub output : r.1.output ≡ before ++ bytes
  pub still_open : r.1.closed ≡ false

pub write-Wrote : (bs : Bytes) (c : Connection) → c.closed ≡ false → Wrote (write bs c) c.output bs
unfolding write
write-Wrote bs c opened = rw opened (record { result = refl; output = refl; still_open = refl })

pub then-Wrote :
    (m k : Handler) (c : Connection) (before a b : Bytes)
    → Wrote (m c) before a
    → ((d : Connection) → d.closed ≡ false → Wrote (k d) d.output b)
    → Wrote (then_do m k c) before (a ++ b)
then-Wrote m k c before a b first second =
    let next = second (m c).1 first.still_open in
    rw first.result (record {
      result = next.result;
      output = next.output ∙ (ap (λ o. o ++ b) first.output ∙ append_assoc before a b);
      still_open = next.still_open;
    })

-- The chunks up to the first empty one, each as a CopyData message.
unfoldable pub copy_data_messages : List Bytes → Result Bytes
copy_data_messages [] = ok []
copy_data_messages ([] ∷ rest) = ok []
copy_data_messages ((b ∷ bs) ∷ rest) = do
  message ← create_message b'd' (b ∷ bs)
  messages ← copy_data_messages rest
  ok (message ++ messages)

send_chunk-Wrote :
    (chunk message : Bytes) (c : Connection)
    → create_message b'd' chunk ≡ ok message
    → c.closed ≡ false
    → Wrote (send_chunk chunk c) c.output message
unfolding send_chunk
send_chunk-Wrote chunk message c framed opened =
    let (len, packed, parts) = create_message_parts b'd' chunk message framed in
    rw (packed, parts)
      (then-Wrote (write (b'd' ∷ len)) (write chunk) c c.output (b'd' ∷ len) chunk
        (write-Wrote (b'd' ∷ len) c opened) (write-Wrote chunk))

nothing_more : (messages : Bytes) (c : Connection) → messages ≡ [] → c.output ≡ c.output ++ messages
nothing_more messages c e = rw (e, append-nil)

send_chunks-Wrote :
    (cid : ℕ) (written : Bytes) (chunks : List Bytes) (messages : Bytes) (c : Connection)
    → copy_data_messages chunks ≡ ok messages
    → c.closed ≡ false
    → Wrote (send_chunks cid written chunks c) c.output messages
unfolding copy_data_messages send_chunks set_stream
send_chunks-Wrote cid written [] messages c framed opened = record {
  result = refl;
  output = nothing_more messages c (cc);
  still_open = opened;
}
send_chunks-Wrote cid written ([] ∷ rest) messages c framed opened = record {
  result = refl;
  output = nothing_more messages c (cc);
  still_open = opened;
}
send_chunks-Wrote cid written ((b ∷ bs) ∷ rest) messages c framed opened =
    let (message, m_ok, p) = >>=-eq-ok (create_message b'd' (b ∷ bs)) _ framed in
    let (tail, t_ok, e) = >>=-eq-ok (copy_data_messages rest) _ p in
    let whole : message ++ tail ≡ messages = cc in
    let d : Connection = set_stream cid (record { incoming = rest; written = written }) c in
    subst (λ out. Wrote (send_chunks cid written ((b ∷ bs) ∷ rest) c) c.output out) whole
      (then-Wrote (send_chunk (b ∷ bs)) (send_chunks cid written rest) d c.output message tail
        (send_chunk-Wrote (b ∷ bs) message d m_ok opened)
        (λ d' open'. send_chunks-Wrote cid written rest tail d' t_ok open'))

-- On an open connection whose stream is set, with chunks that fit into messages,
-- `handle_COPY_IN_RESPONSE` returns and has written one CopyData message for each chunk up to the
-- end of the stream, then CopyDone and Sync.
pub copy_in-Wrote :
    (cid : ℕ) (body : Bytes) (c : Connection) (s : Stream) (messages : Bytes)
    → 3 ≤ length body
    → stream_of cid c ≡ open_stream s
    → copy_data_messages s.incoming ≡ ok messages
    → c.closed ≡ false
    → Wrote (handle_copy_in_response cid body c) c.output (messages ++ (copy_done_msg ++ sync_msg))
unfolding handle_copy_in_response copy_in has_header
copy_in-Wrote cid body c s messages long stream framed opened =
    rw (stream, header)
      (then-Wrote (send_chunks cid s.written s.incoming)
        (then_do (write copy_done_msg) (write sync_msg)) c c.output messages
        (copy_done_msg ++ sync_msg)
        (send_chunks-Wrote cid s.written s.incoming messages c framed opened)
        (λ d open'.
          then-Wrote (write copy_done_msg) (write sync_msg) d d.output copy_done_msg sync_msg
            (write-Wrote copy_done_msg d open') (λ d' open''. write-Wrote sync_msg d' open'')))
  where
    header : has_header body ≡ true
    header = ground arith
