-- ===== src/Tests/Messages.antt =====
-- Tests of the message loops.
use amazon_redshift_python_d.Prelude.{refl, [], ◌∷◌, ◌++◌, arith}
use amazon_redshift_python_d.Prelude.Text.{Bytes, codes}
use amazon_redshift_python_d.Connection.Coherent.{IsCoherent}
use amazon_redshift_python_d.Connection.Execute.Kept.{Cached, Cached-Shrinks, Shrinks-Clears}
use amazon_redshift_python_d.Connection.Messages.Kept.{handle_messages-IsCoherent}
use amazon_redshift_python_d.Connection.Messages.{
  handle_messages, handle_messages_merge_socket_read, tag, drops_statements,
}
use amazon_redshift_python_d.Connection.Messages.Stream.{
  Message, IsMessage, IsInner, world, frames, Follows, process, handle_messages-process,
}
use amazon_redshift_python_d.Connection.Messages.Merge.{Same, merge_socket_read-Same}
use amazon_redshift_python_d.Wire.{create_message, pack, be_bytes}
use amazon_redshift_python_d.Tests.Data.{outside_code, connection}

-- CommandComplete with the tag "INSERT 0 1"
abbrev pub complete : Message
complete = record {
  code = b'C';
  body = codes "INSERT 0 1" ++ (0 ∷ []);
  frame = b'C' ∷ 0 ∷ 0 ∷ 0 ∷ 15 ∷ (codes "INSERT 0 1" ++ (0 ∷ []));
}

-- ReadyForQuery, in no transaction
abbrev pub ready : Message
ready = record { code = b'Z'; body = b'I' ∷ []; frame = b'Z' ∷ 0 ∷ 0 ∷ 0 ∷ 5 ∷ b'I' ∷ [] }

ready_valid : IsMessage ready
unfolding create_message pack be_bytes tag drops_statements
ready_valid = record { framed = refl; keeps_statements = λ e. refl }

complete_valid : IsInner complete
unfolding create_message pack be_bytes tag drops_statements
complete_valid = record {
  message = record { framed = refl; keeps_statements = λ e. refl };
  not_ready = refl;
}

handle_messages-process_example :
    Follows
      (handle_messages outside_code 2 1
        (world connection (frames (complete ∷ []) (ready.frame ++ (9 ∷ [])))))
      (process outside_code 1 (complete ∷ ready ∷ []) connection)
      (9 ∷ [])
handle_messages-process_example =
    handle_messages-process outside_code 1 (complete ∷ []) ready 2 connection (9 ∷ [])
      (complete_valid, tt) ready_valid refl (omega arith)

merge_socket_read-Same_example :
    Same
      (handle_messages_merge_socket_read outside_code 2 1
        (world connection (frames (complete ∷ []) (ready.frame ++ (9 ∷ [])))))
      (handle_messages outside_code 2 1
        (world connection (frames (complete ∷ []) (ready.frame ++ (9 ∷ [])))))
merge_socket_read-Same_example =
    merge_socket_read-Same outside_code 1 (complete ∷ []) ready 2 connection (9 ∷ [])
      (complete_valid, tt) ready_valid refl (omega arith)

pub connection-IsCoherent : IsCoherent Cached connection
unfolding IsCoherent
connection-IsCoherent = (
  record {
    conversions = λ oid. refl;
    few_notices = ground arith;
    few_notifications = ground arith;
    few_parameter_statuses = ground arith;
  },
  λ pid. record { small = tt; known = tt; distinct = tt },
)

-- The server reports that it speaks the binary protocol.
abbrev pub binary_protocol : Bytes
binary_protocol =
    b'S' ∷ 0 ∷ 0 ∷ 0 ∷ 30 ∷ (codes "server_protocol_version" ++ (0 ∷ b'2' ∷ 0 ∷ ready.frame))

handle_messages-IsCoherent_example :
    IsCoherent Cached (handle_messages outside_code 2 1 (world connection binary_protocol)).1.conn
    × IsCoherent Cached
        (handle_messages_merge_socket_read outside_code 2 1
          (world connection binary_protocol)).1.conn
handle_messages-IsCoherent_example =
    handle_messages-IsCoherent Cached outside_code 2 1 (world connection binary_protocol)
      (Shrinks-Clears Cached Cached-Shrinks) connection-IsCoherent
