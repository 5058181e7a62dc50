-- ===== src/Tests/Copy.antt =====
-- Tests of COPY.
use amazon_redshift_python_d.Prelude.{◌≡◌, refl, [], ◌∷◌, ◌++◌, arith}
use amazon_redshift_python_d.Prelude.Result.{ok}
use amazon_redshift_python_d.Prelude.Text.{Bytes}
use amazon_redshift_python_d.Connection.{Connection, Stream, open_stream}
use amazon_redshift_python_d.Connection.Copy.{handle_copy_in_response, stream_of}
use amazon_redshift_python_d.Connection.Copy.Sent.{Wrote, copy_data_messages, copy_in-Wrote}
use amazon_redshift_python_d.Connection.Sending.{copy_done_msg, sync_msg}
use amazon_redshift_python_d.Wire.{create_message, pack, be_bytes}
use amazon_redshift_python_d.Tests.Data.{connection, cursor}

abbrev file : Stream
file = record { incoming = (7 ∷ 8 ∷ []) ∷ (9 ∷ []) ∷ []; written = [] }

abbrev copying : Connection
copying = record connection { cursors = record cursor { stream = open_stream file } ∷ [] }

abbrev two_messages : Bytes
two_messages = b'd' ∷ 0 ∷ 0 ∷ 0 ∷ 6 ∷ 7 ∷ 8 ∷ b'd' ∷ 0 ∷ 0 ∷ 0 ∷ 5 ∷ 9 ∷ []

file_messages : copy_data_messages file.incoming ≡ ok two_messages
unfolding copy_data_messages create_message pack be_bytes
file_messages = refl

file_open : stream_of 0 copying ≡ open_stream file
unfolding stream_of
file_open = refl

copy_in-Wrote_example :
    Wrote
      (handle_copy_in_response 0 (0 ∷ 0 ∷ 0 ∷ []) copying)
      copying.output
      (two_messages ++ (copy_done_msg ++ sync_msg))
copy_in-Wrote_example =
    copy_in-Wrote 0 (0 ∷ 0 ∷ 0 ∷ []) copying file two_messages (ground arith) file_open
      file_messages refl
