-- ===== src/Connection/Copy.antt =====
-- redshift_connector/core.py: `handle_COPY_OUT_RESPONSE`, `handle_COPY_DATA` and
-- `handle_COPY_IN_RESPONSE`. What they call `ps` is the cursor.
pub mod Kept
pub mod Sent
use amazon_redshift_python_d.Prelude.{
  update_at, ℕ, ◌+◌, Bool, true, false, none, some, List, [], ◌∷◌, ◌++◌, ltb, if◌then◌else◌, length,
  get_elem?, set,
}
use amazon_redshift_python_d.Prelude.Int.{pos}
use amazon_redshift_python_d.Prelude.Result.{
  ok, err, interface_error, attribute_error, struct_error,
}
use amazon_redshift_python_d.Prelude.Action.{Action, pure, raise, lift, self, modify, ◌>>=◌, ◌>>◌}
use amazon_redshift_python_d.Prelude.Text.{Bytes}
use amazon_redshift_python_d.Connection.{
  Connection, Handler, Stream, StreamAttribute, missing, no_stream, open_stream,
}
use amazon_redshift_python_d.Connection.Sending.{write, copy_done_msg, sync_msg}
use amazon_redshift_python_d.Wire.{i, pack}

unfoldable pub stream_of : ℕ → Connection → StreamAttribute
stream_of cid c = elim (get_elem? c.cursors cid) [ none ↦ missing | some cur ↦ cur.stream ]

set_stream : ℕ → Stream → Connection → Connection
set_stream cid s c = record c {
  cursors = update_at cid (λ cur. record cur { stream = open_stream s }) c.cursors;
}

-- bh_unpack(data)
has_header : Bytes → Bool
has_header body = if ltb (length body) 3 then false else true

copy_out : StreamAttribute → Handler
copy_out missing = raise attribute_error
copy_out no_stream =
    raise (interface_error "An output stream is required for the COPY OUT response.")
copy_out (open_stream s) = pure tt

unfoldable pub handle_copy_out_response : ℕ → Bytes → Handler
unfolding copy_out stream_of has_header
handle_copy_out_response cid body = do
  c ← self
  if has_header body then copy_out (stream_of cid c) else raise struct_error

write_stream : ℕ → Bytes → StreamAttribute → Handler
unfolding set_stream
write_stream cid body missing = raise attribute_error
write_stream cid body no_stream = raise attribute_error
write_stream cid body (open_stream s) =
    modify (set_stream cid (record s { written = s.written ++ body }))

unfoldable pub handle_copy_data : ℕ → Bytes → Handler
unfolding write_stream stream_of
handle_copy_data cid body = do c ← self; write_stream cid body (stream_of cid c)

-- COPY_DATA + i_pack(bytes_read + 4), and the bytes.
unfoldable pub send_chunk : Bytes → Handler
unfolding write
send_chunk chunk = do len ← lift (pack i (pos (length chunk + 4))); write (b'd' ∷ len); write chunk

-- The loop over `readinto`: it ends where nothing is read.
unfoldable pub send_chunks : ℕ → Bytes → List Bytes → Handler
unfolding send_chunk set_stream
send_chunks cid written [] = pure tt
send_chunks cid written ([] ∷ rest) =
    modify (set_stream cid (record { incoming = rest; written = written }))
send_chunks cid written ((b ∷ bs) ∷ rest) = do
  modify (set_stream cid (record { incoming = rest; written = written }))
  send_chunk (b ∷ bs)
  send_chunks cid written rest

copy_in : ℕ → StreamAttribute → Handler
copy_in cid missing = raise attribute_error
copy_in cid no_stream =
    raise (interface_error "An input stream is required for the COPY IN response.")
copy_in cid (open_stream s) = do
  send_chunks cid s.written s.incoming
  write copy_done_msg
  write sync_msg

unfoldable pub handle_copy_in_response : ℕ → Bytes → Handler
unfolding copy_in send_chunks write stream_of set_stream has_header
handle_copy_in_response cid body = do
  c ← self
  if has_header body then copy_in cid (stream_of cid c) else raise struct_error
