-- ===== src/Connection/Copy/Kept.antt =====
-- The COPY handlers keep the connection coherent.
use amazon_redshift_python_d.Prelude.{ℕ, List, [], ◌∷◌}
use amazon_redshift_python_d.Prelude.Action.{modify}
use amazon_redshift_python_d.Prelude.Keeps.{Keeps, modify-Keeps, keeping}
use amazon_redshift_python_d.Prelude.Text.{Bytes}
use amazon_redshift_python_d.Connection.{
  Connection, Stream, StreamAttribute, missing, no_stream, open_stream,
}
use amazon_redshift_python_d.Connection.Coherent.{IsCoherent, Tracked}
use amazon_redshift_python_d.Connection.Copy.{
  copy_in, copy_out, handle_copy_data, handle_copy_in_response, handle_copy_out_response,
  send_chunk, send_chunks, set_stream, write_stream,
}
use amazon_redshift_python_d.Connection.Sending.Kept.{write-Keeps}

module _ (T : Tracked) where
  set_stream-IsCoherent :
      (cid : ℕ) (s : Stream) (c : Connection) → IsCoherent T c → IsCoherent T (set_stream cid s c)
  unfolding set_stream IsCoherent
  set_stream-IsCoherent cid s c h = h

  copy_out-Keeps : (a : StreamAttribute) → Keeps (IsCoherent T) (copy_out a)
  unfolding copy_out
  copy_out-Keeps missing = search keeping
  copy_out-Keeps no_stream = search keeping
  copy_out-Keeps (open_stream s) = search keeping

  pub handle_copy_out_response-Keeps :
      (cid : ℕ) (body : Bytes) → Keeps (IsCoherent T) (handle_copy_out_response cid body)
  unfolding handle_copy_out_response
  handle_copy_out_response-Keeps cid body = search (keeping, copy_out-Keeps) depth 10

  write_stream-Keeps :
      (cid : ℕ) (body : Bytes) (a : StreamAttribute)
      → Keeps (IsCoherent T) (write_stream cid body a)
  unfolding write_stream
  write_stream-Keeps cid body missing = search keeping
  write_stream-Keeps cid body no_stream = search keeping
  write_stream-Keeps cid body (open_stream s) = modify-Keeps (set_stream-IsCoherent cid _)

  pub handle_copy_data-Keeps :
      (cid : ℕ) (body : Bytes) → Keeps (IsCoherent T) (handle_copy_data cid body)
  unfolding handle_copy_data
  handle_copy_data-Keeps cid body = search (keeping, write_stream-Keeps) depth 10

  send_chunk-Keeps : (chunk : Bytes) → Keeps (IsCoherent T) (send_chunk chunk)
  unfolding send_chunk
  send_chunk-Keeps chunk = search (keeping, write-Keeps) depth 20

  advance-Keeps : (cid : ℕ) (s : Stream) → Keeps (IsCoherent T) (modify (set_stream cid s))
  advance-Keeps cid s = modify-Keeps (set_stream-IsCoherent cid s)

  send_chunks-Keeps :
      (cid : ℕ) (written : Bytes) (chunks : List Bytes)
      → Keeps (IsCoherent T) (send_chunks cid written chunks)
  unfolding send_chunks
  send_chunks-Keeps cid written [] = search keeping
  send_chunks-Keeps cid written ([] ∷ rest) = advance-Keeps cid _
  send_chunks-Keeps cid written ((b ∷ bs) ∷ rest) =
      search (keeping, advance-Keeps, send_chunk-Keeps, send_chunks-Keeps cid written rest) depth 20

  copy_in-Keeps : (cid : ℕ) (a : StreamAttribute) → Keeps (IsCoherent T) (copy_in cid a)
  unfolding copy_in
  copy_in-Keeps cid missing = search keeping
  copy_in-Keeps cid no_stream = search keeping
  copy_in-Keeps cid (open_stream s) = search (keeping, send_chunks-Keeps, write-Keeps) depth 20

  pub handle_copy_in_response-Keeps :
      (cid : ℕ) (body : Bytes) → Keeps (IsCoherent T) (handle_copy_in_response cid body)
  unfolding handle_copy_in_response
  handle_copy_in_response-Keeps cid body = search (keeping, copy_in-Keeps) depth 10
