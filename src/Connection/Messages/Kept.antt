-- ===== src/Connection/Messages/Kept.antt =====
-- Whatever the server sends, the message loops keep the connection coherent.
use amazon_redshift_python_d.Prelude.{ℕ, zero, suc, Bool, true, false, List, [], ◌∷◌}
use amazon_redshift_python_d.Prelude.Int.{ℤ, pos, negsuc}
use amazon_redshift_python_d.Prelude.Action.{Action, modify}
use amazon_redshift_python_d.Prelude.Result.{ok}
use amazon_redshift_python_d.Prelude.Keeps.{
  Keeps, Keeps_lem, each, modify-Keeps, bind-Keeps, then-Keeps, if-Keeps, lift-Keeps, raise-Keeps,
  keeping,
}
use amazon_redshift_python_d.Prelude.Text.{Bytes}
use amazon_redshift_python_d.Connection.{Cache, Caches, Connection, Cursor, Foreign}
use amazon_redshift_python_d.Connection.Coherent.{IsCoherent, Tracked, numbers}
use amazon_redshift_python_d.Connection.Auth.Kept.{handle_authentication_request-Keeps}
use amazon_redshift_python_d.Connection.Status.Kept.{
  handle_error_response-Keeps, handle_notice_response-Keeps, handle_notification_response-Keeps,
  handle_parameter_status-Keeps, others-Keep,
}
use amazon_redshift_python_d.Connection.Copy.Kept.{
  handle_copy_data-Keeps, handle_copy_in_response-Keeps, handle_copy_out_response-Keeps,
}
use amazon_redshift_python_d.Connection.Rows.Kept.{
  handle_data_row-Keeps, handle_row_description-Keeps,
}
use amazon_redshift_python_d.Wire.{ci_unpack}
use amazon_redshift_python_d.Connection.Sending.Kept.{write-Keeps, send_message-Keeps}
use amazon_redshift_python_d.Connection.Messages.{
  World, Step, around, clear_caches, clear_error, clear_one, close_all, close_pids,
  close_prepared_statement, close_styles, count_rows, dispatch, message_type,
  handle_command_complete, handle_messages, handle_messages_merge_socket_read, local_handler,
  locally, merge_loop, merge_start, on_cursor, raise_error, read, read_loop,
}

-- What is tracked stays true where a cache is cleared.
abbrev pub Clears : Tracked → Type 0
Clears T =
    (i j : ℕ) (caches : Caches) (nums : List ℕ) (max : ℕ)
    → T caches nums max
    → T (clear_caches i j caches) nums max

module _ (T : Tracked) (clears : Clears T) where
  abbrev pub IsSound : World → Type 0
  IsSound w = IsCoherent T w.conn

  pub locally-Keeps :
      {A : Type 0} {m : Action Connection A} → Keeps (IsCoherent T) m → Keeps IsSound (locally m)
  locally-Keeps (each keeps) = each (λ w h. keeps w.conn h)

  pub read-Keeps : (n : ℤ) → Keeps IsSound (read n)
  unfolding read
  read-Keeps (pos n) = each (λ w h. h)
  read-Keeps (negsuc zero) = each (λ w h. h)
  read-Keeps (negsuc (suc n)) = each (λ w h. h)

  on_cursor-Keeps :
      (cid : ℕ) (f : Cursor → Cursor) → Keeps (IsCoherent T) (modify (on_cursor cid f))
  unfolding IsCoherent
  on_cursor-Keeps cid f = modify-Keeps (λ c h. h)

  count_rows-Keeps : (cid : ℕ) (words : List Bytes) → Keeps (IsCoherent T) (count_rows cid words)
  unfolding count_rows
  count_rows-Keeps cid words = search (keeping, on_cursor-Keeps) depth 20

  clear_one-Keeps : (i j : ℕ) → Keeps (IsCoherent T) (clear_one i j)
  unfolding clear_one IsCoherent
  clear_one-Keeps i j =
      modify-Keeps
        (λ c h. (h.0, clears i j c.caches (numbers c.statements) c.max_prepared_statements h.1))

  module _ (nested : Step) (keeps : Keeps IsSound nested) where
    close_prepared_statement-Keeps :
        (name : Bytes) → Keeps IsSound (close_prepared_statement nested name)
    unfolding close_prepared_statement
    close_prepared_statement-Keeps name =
        search (keeping, locally-Keeps, send_message-Keeps, write-Keeps, keeps) depth 20

    pub close_all-Keeps : (ids : List ℕ) → Keeps IsSound (close_all nested ids)
    unfolding close_all
    close_all-Keeps [] = lift-Keeps _
    close_all-Keeps (s ∷ ss) =
        search (keeping, close_prepared_statement-Keeps, close_all-Keeps ss) depth 20

    close_pids-Keeps :
        (i j : ℕ) (pids : List (ℕ × Cache)) → Keeps IsSound (close_pids nested i j pids)
    unfolding close_pids
    close_pids-Keeps i j [] = lift-Keeps _
    close_pids-Keeps i j ((pid, k) ∷ rest) =
        search
          (
            keeping,
            close_all-Keeps,
            locally-Keeps,
            clear_one-Keeps,
            close_pids-Keeps i (suc j) rest,
          )
          depth 20

    close_styles-Keeps : (i : ℕ) (caches : Caches) → Keeps IsSound (close_styles nested i caches)
    unfolding close_styles
    close_styles-Keeps i [] = lift-Keeps _
    close_styles-Keeps i ((style, pids) ∷ rest) =
        search (keeping, close_pids-Keeps, close_styles-Keeps (suc i) rest) depth 20

    handle_command_complete-Keeps :
        (cid : ℕ) (body : Bytes) → Keeps IsSound (handle_command_complete nested cid body)
    unfolding handle_command_complete
    handle_command_complete-Keeps cid body =
        search (keeping, locally-Keeps, count_rows-Keeps, close_styles-Keeps) depth 20

  clear_error-Keeps : Keeps (IsCoherent T) clear_error
  unfolding clear_error IsCoherent
  clear_error-Keeps = modify-Keeps (λ c h. h)

  pub raise_error-Keeps : Keeps (IsCoherent T) raise_error
  unfolding raise_error
  raise_error-Keeps = search keeping depth 10

  around-Keeps : (loop : Step) → Keeps IsSound loop → Keeps IsSound (around loop)
  unfolding around
  around-Keeps loop keeps =
      search (keeping, locally-Keeps, clear_error-Keeps, raise_error-Keeps, keeps) depth 20

  module _ (F : Foreign) where
    pub local_handler-Keeps :
        (code cid : ℕ) (body : Bytes) → Keeps (IsCoherent T) (local_handler F code cid body)
    unfolding local_handler
    local_handler-Keeps code cid body =
        let (empty, close, parse, bind, suspended, description, no_data, done, ready, key) =
          others-Keep T body in
        search
          (
            if-Keeps, raise-Keeps, handle_authentication_request-Keeps, handle_error_response-Keeps,
            handle_notice_response-Keeps, handle_notification_response-Keeps,
            handle_parameter_status-Keeps, handle_copy_data-Keeps, handle_copy_in_response-Keeps,
            handle_copy_out_response-Keeps, handle_data_row-Keeps, handle_row_description-Keeps,
            empty, close, parse, bind, suspended, description, no_data, done, ready, key,
          )
          depth 60 fits 5000

    dispatch-Keeps :
        (nested : Step) (code cid : ℕ) (body : Bytes)
        → Keeps IsSound nested
        → Keeps IsSound (dispatch F nested code cid body)
    unfolding dispatch
    dispatch-Keeps nested code cid body keeps =
        if-Keeps _ (handle_command_complete-Keeps nested keeps cid body)
          (locally-Keeps (local_handler-Keeps code cid body))

    until-Keeps :
        (b : Bool) (loop : Step)
        → Keeps IsSound loop
        → Keeps {A = Unit {0}} IsSound (λ v. elim b [ true ↦ (ok tt, v) | false ↦ loop v ])
    until-Keeps true loop keeps = each (λ w h. h)
    until-Keeps false loop keeps = keeps

    read_loop-Keeps : (fuel cid : ℕ) → Keeps IsSound (read_loop F fuel cid)
    unfolding read_loop
    read_loop-Keeps zero cid = each (λ w h. h)
    read_loop-Keeps (suc fuel) cid = bind-Keeps (read-Keeps _) (λ head.
        bind-Keeps (lift-Keeps (ci_unpack head)) (λ code_len.
          then-Keeps (lift-Keeps (message_type code_len.0)) (
            bind-Keeps (read-Keeps _) (λ body.
              then-Keeps
                (dispatch-Keeps _ code_len.0 cid body
                  (around-Keeps (read_loop F fuel 0) (read_loop-Keeps fuel 0)))
                (until-Keeps _ (read_loop F fuel cid) (read_loop-Keeps fuel cid))))))

    pub handle_messages-Keeps : (fuel cid : ℕ) → Keeps IsSound (handle_messages F fuel cid)
    unfolding handle_messages
    handle_messages-Keeps fuel cid = around-Keeps (read_loop F fuel cid) (read_loop-Keeps fuel cid)

    branch-Keeps :
        (b : Bool) (x y : Step)
        → Keeps IsSound x
        → Keeps IsSound y
        → Keeps {A = Unit {0}} IsSound (λ v. elim b [ true ↦ x v | false ↦ y v ])
    branch-Keeps true x y p q = p
    branch-Keeps false x y p q = q

    merge_loop-Keeps :
        (fuel cid code : ℕ) (len : ℤ) → Keeps IsSound (merge_loop F fuel cid code len)
    unfolding merge_loop
    merge_loop-Keeps zero cid code len = each (λ w h. h)
    merge_loop-Keeps (suc fuel) cid code len =
        branch-Keeps _ _ _
          (bind-Keeps (read-Keeps _)
            (λ body. dispatch-Keeps _ code cid body (handle_messages-Keeps fuel 0)))
          (bind-Keeps (read-Keeps _) (λ chunk.
            then-Keeps (dispatch-Keeps _ code cid _ (handle_messages-Keeps fuel 0)) (
              bind-Keeps (lift-Keeps _)
                (λ code_len. merge_loop-Keeps fuel cid code_len.0 code_len.1))))

    merge_start-Keeps : (fuel cid : ℕ) → Keeps IsSound (merge_start F fuel cid)
    unfolding merge_start
    merge_start-Keeps fuel cid = bind-Keeps (read-Keeps _) (λ head.
        bind-Keeps (lift-Keeps _) (λ code_len. merge_loop-Keeps fuel cid code_len.0 code_len.1))

    pub merge_socket_read-Keeps :
        (fuel cid : ℕ) → Keeps IsSound (handle_messages_merge_socket_read F fuel cid)
    unfolding handle_messages_merge_socket_read
    merge_socket_read-Keeps fuel cid =
        around-Keeps (merge_start F fuel cid) (merge_start-Keeps fuel cid)

-- Whatever bytes the server sends, and also where an exception ends the loop, both message loops
-- keep the connection coherent: the conversion table is that of the protocol version at every
-- oid, none of the three deques is longer than 100, and what is tracked of the caches is kept if
-- clearing a cache keeps it.
pub handle_messages-IsCoherent :
    (T : Tracked) (F : Foreign) (fuel cid : ℕ) (w : World)
    → Clears T
    → IsCoherent T w.conn
    → IsCoherent T (handle_messages F fuel cid w).1.conn
      × IsCoherent T (handle_messages_merge_socket_read F fuel cid w).1.conn
handle_messages-IsCoherent T F fuel cid w clears h = (
  Keeps_lem (handle_messages-Keeps T clears F fuel cid) w h,
  Keeps_lem (merge_socket_read-Keeps T clears F fuel cid) w h,
)
