-- ===== src/Connection/Status/Kept.antt =====
-- The handlers of the statuses, errors and notices keep the connection coherent.
use amazon_redshift_python_d.Prelude.{
  ℕ, ◌-◌, ◌≤◌, ◌∙◌, Bool, true, false, List, [], ◌∷◌, ◌++◌, arith, length, length-drop,
  if◌then◌else◌,
}
use amazon_redshift_python_d.Prelude.Int.{ℤ}
use amazon_redshift_python_d.Prelude.Result.{Result}
use amazon_redshift_python_d.Prelude.Keeps.{
  Keeps, modify-Keeps, bind-Keeps, then-Keeps, lift-Keeps, keeping,
}
use amazon_redshift_python_d.Prelude.Text.{Bytes, Text, push_bounded}
use amazon_redshift_python_d.Connection.{Connection}
use amazon_redshift_python_d.Connection.Coherent.{IsCoherent, Tracked}
use amazon_redshift_python_d.Connection.Status.{
  follow_protocol, handle_backend_key_data, handle_bind_complete, handle_close_complete,
  handle_copy_done, handle_empty_query_response, handle_error_response, handle_no_data,
  handle_notice_response, handle_notification_response, handle_parameter_description,
  handle_parameter_status, handle_parse_complete, handle_portal_suspended, handle_ready_for_query,
  key_value, set_protocol, status_value, store,
}
use amazon_redshift_python_d.Types.{pg_types}
use amazon_redshift_python_d.Types.Protocol.{
  enable_protocol, enable_protocol_last, enable_protocol-cong,
}

module _ (T : Tracked) where
  push_bounded-le : {A : Type 0} (n : ℕ) (xs : List A) (x : A) → length (push_bounded n xs x) ≤ n
  unfolding push_bounded
  push_bounded-le n xs x = omega (arith, length-drop (length (xs ++ (x ∷ [])) - n) (xs ++ (x ∷ [])))

  pub set_protocol-IsCoherent :
      (v : ℤ) (c : Connection) → IsCoherent T c → IsCoherent T (set_protocol v c)
  unfolding set_protocol IsCoherent
  set_protocol-IsCoherent v c h = (
    record {
      conversions = λ oid.
          enable_protocol-cong v c.numeric_to_float c.pg_types
            (enable_protocol c.client_protocol_version c.numeric_to_float pg_types) oid
            (h.0.conversions oid)
          ∙ enable_protocol_last c.client_protocol_version v c.numeric_to_float c.numeric_to_float
              pg_types oid;
      few_notices = h.0.few_notices;
      few_notifications = h.0.few_notifications;
      few_parameter_statuses = h.0.few_parameter_statuses;
    },
    h.1,
  )

  pub either :
      (b : Bool) (c d : Connection)
      → IsCoherent T c
      → IsCoherent T d
      → IsCoherent T (if b then c else d)
  either true c d p q = p
  either false c d p q = q

  follow_protocol-IsCoherent :
      (v : ℤ) (c : Connection) → IsCoherent T c → IsCoherent T (follow_protocol v c)
  unfolding follow_protocol
  follow_protocol-IsCoherent v c h = either _ c (set_protocol v c) h (set_protocol-IsCoherent v c h)

  encoding-Keeps : (r : Result Text) → Keeps (IsCoherent T) (store r (λ t c. c))
  unfolding store IsCoherent
  encoding-Keeps r = bind-Keeps (lift-Keeps r) (λ t. modify-Keeps (λ c h. h))

  protocol-Keeps : (r : Result ℤ) → Keeps (IsCoherent T) (store r follow_protocol)
  unfolding store
  protocol-Keeps r = bind-Keeps (lift-Keeps r) (λ v. modify-Keeps (follow_protocol-IsCoherent v))

  version-Keeps :
      (r : Result (List Bytes))
      → Keeps (IsCoherent T) (store r (λ commands d. record d { commands_with_count = commands }))
  unfolding store IsCoherent
  version-Keeps r = bind-Keeps (lift-Keeps r) (λ commands. modify-Keeps (λ d h. h))

  status_value-Keeps : (key value : Bytes) → Keeps (IsCoherent T) (status_value key value)
  unfolding status_value
  status_value-Keeps key value =
      search (keeping, encoding-Keeps, protocol-Keeps, version-Keeps) depth 20

  pub handle_parameter_status-Keeps :
      (body : Bytes) → Keeps (IsCoherent T) (handle_parameter_status body)
  unfolding handle_parameter_status IsCoherent
  handle_parameter_status-Keeps body =
      then-Keeps
        (modify-Keeps (λ c h. (
          record {
            conversions = h.0.conversions;
            few_notices = h.0.few_notices;
            few_notifications = h.0.few_notifications;
            few_parameter_statuses = push_bounded-le 100 c.parameter_statuses (key_value body);
          },
          h.1,
        )))
        (status_value-Keeps (key_value body).0 (key_value body).1)

  pub handle_notice_response-Keeps :
      (body : Bytes) → Keeps (IsCoherent T) (handle_notice_response body)
  unfolding handle_notice_response IsCoherent
  handle_notice_response-Keeps body = modify-Keeps (λ c h. (
    record {
      conversions = h.0.conversions;
      few_notices = push_bounded-le 100 c.notices _;
      few_notifications = h.0.few_notifications;
      few_parameter_statuses = h.0.few_parameter_statuses;
    },
    h.1,
  ))

  pub handle_notification_response-Keeps :
      (body : Bytes) → Keeps (IsCoherent T) (handle_notification_response body)
  unfolding handle_notification_response store IsCoherent
  handle_notification_response-Keeps body = bind-Keeps (lift-Keeps _) (λ n. modify-Keeps (λ c h. (
    record {
      conversions = h.0.conversions;
      few_notices = h.0.few_notices;
      few_notifications = push_bounded-le 100 c.notifications n;
      few_parameter_statuses = h.0.few_parameter_statuses;
    },
    h.1,
  )))

  -- The handlers that keep away from the deques and the conversions.
  pub handle_error_response-Keeps :
      (body : Bytes) → Keeps (IsCoherent T) (handle_error_response body)
  unfolding handle_error_response store IsCoherent
  handle_error_response-Keeps body = bind-Keeps (lift-Keeps _) (λ e. modify-Keeps (λ c h. h))

  pub others-Keep :
      (body : Bytes)
      → Keeps (IsCoherent T) (handle_empty_query_response body)
        × Keeps (IsCoherent T) (handle_close_complete body)
        × Keeps (IsCoherent T) (handle_parse_complete body)
        × Keeps (IsCoherent T) (handle_bind_complete body)
        × Keeps (IsCoherent T) (handle_portal_suspended body)
        × Keeps (IsCoherent T) (handle_parameter_description body)
        × Keeps (IsCoherent T) (handle_no_data body)
        × Keeps (IsCoherent T) (handle_copy_done body)
        × Keeps (IsCoherent T) (handle_ready_for_query body)
        × Keeps (IsCoherent T) (handle_backend_key_data body)
  unfolding handle_empty_query_response handle_close_complete handle_parse_complete
      handle_bind_complete handle_portal_suspended handle_parameter_description handle_no_data
      handle_copy_done handle_ready_for_query handle_backend_key_data IsCoherent
  others-Keep body = (
    modify-Keeps (λ c h. h),
    lift-Keeps _,
    lift-Keeps _,
    lift-Keeps _,
    lift-Keeps _,
    lift-Keeps _,
    lift-Keeps _,
    modify-Keeps (λ c h. h),
    modify-Keeps (λ c h. h),
    modify-Keeps (λ c h. h),
  )
