-- ===== src/Session/Closing.antt =====
-- What a closed connection does, and that the two-phase commit leaves the mode of autocommit.
use amazon_redshift_python_d.Prelude.{
  ℕ, ◌≡◌, refl, Bool, true, Option, none, some, get_elem?, inl, inr, Bool-cases,
}
use amazon_redshift_python_d.Prelude.Action.{Action, continue}
use amazon_redshift_python_d.Prelude.Result.{Result, ok, err, interface_error}
use amazon_redshift_python_d.Prelude.Text.{Bytes, Text, codes}
use amazon_redshift_python_d.Paramstyle.{Style}
use amazon_redshift_python_d.Connection.{Connection, Cursor, Foreign, StreamAttribute, Xid}
use amazon_redshift_python_d.Connection.Execute.{present}
use amazon_redshift_python_d.Connection.Execute.Requests.{Vals}
use amazon_redshift_python_d.Connection.Messages.{World, Step}
use amazon_redshift_python_d.Connection.Messages.Stream.{world}
use amazon_redshift_python_d.Connection.Sending.{write}
use amazon_redshift_python_d.Session.{close, commit, cursor_at, cursor_execute, not_open, rollback}
use amazon_redshift_python_d.Session.Tpc.{
  finish, finish_body, finish_xid, chosen, set_autocommit, tpc_commit, tpc_recover, tpc_rollback,
  with_autocommit,
}

-- On a closed connection nothing is done.
closed-cursor_execute :
    (F : Foreign) (fuel cid : ℕ) (operation : Text) (args : Vals) (source : StreamAttribute)
    (merge : Bool) (c : Connection) (input : Bytes) (cur : Cursor)
    → get_elem? c.cursors cid ≡ some cur
    → cur.attached ≡ true
    → c.closed ≡ true
    → cursor_execute F fuel cid operation args source merge (world c input)
      ≡ (err (interface_error "connection is closed"), world c input)
unfolding cursor_execute cursor_at present
closed-cursor_execute F fuel cid operation args source merge c input cur at attached closed =
    rw (at, attached, closed) refl

close-cursors : (c : Connection) → (close c).1.cursors ≡ c.cursors
unfolding close write not_open
close-cursors c = elim (Bool-cases c.closed) [ inl e ↦ rw e refl | inr e ↦ rw e refl ]

close-closed : (c : Connection) → (close c).1.closed ≡ true
unfolding close
close-closed c = refl

-- After `close`, whether it returned or raised, a cursor of the connection that is not closed itself
-- raises InterfaceError for every statement, and nothing of the connection changes or is written.
pub close-cursor_execute :
    (F : Foreign) (fuel cid : ℕ) (operation : Text) (args : Vals) (source : StreamAttribute)
    (merge : Bool) (c : Connection) (input : Bytes) (cur : Cursor)
    → get_elem? c.cursors cid ≡ some cur
    → cur.attached ≡ true
    → cursor_execute F fuel cid operation args source merge (world (close c).1 input)
      ≡ (err (interface_error "connection is closed"), world (close c).1 input)
close-cursor_execute F fuel cid operation args source merge c input cur at attached =
    closed-cursor_execute F fuel cid operation args source merge (close c).1 input cur
      (rw (close-cursors c) at) attached (close-closed c)

abbrev mode : World → Bool
mode w = w.conn.autocommit

with_autocommit-mode :
    {A : Type 0} (m : Action World A) (w : World) → mode (with_autocommit m w).1 ≡ mode w
unfolding with_autocommit set_autocommit
with_autocommit-mode m w = refl

finish_xid-mode :
    (F : Foreign) (paramstyle : Style) (fuel : ℕ) (command : Text) (single : Step) (xid : Xid)
    (w : World)
    → mode (finish_xid F paramstyle fuel command single xid w).1 ≡ mode w
unfolding finish_xid
finish_xid-mode F paramstyle fuel command single xid w =
    after (with_autocommit (finish_body F paramstyle fuel command single xid) w).0 _
      (with_autocommit-mode (finish_body F paramstyle fuel command single xid) w)
  where
    after :
        (r : Result (Unit {0})) (v : World)
        → mode v ≡ mode w
        → mode (continue r v (λ _ u. (ok tt, record u { conn = record u.conn { xid = none } }))).1
          ≡ mode w
    after (ok t) v e = e
    after (err x) v e = e

finish-mode :
    (F : Foreign) (paramstyle : Style) (fuel : ℕ) (command : Text) (single : Step)
    (xid : Option Xid) (w : World)
    → mode (finish F paramstyle fuel command single xid w).1 ≡ mode w
unfolding finish
finish-mode F paramstyle fuel command single none w = refl
finish-mode F paramstyle fuel command single (some xid) w =
    finish_xid-mode F paramstyle fuel command single xid w

-- tpc_recover, tpc_commit and tpc_rollback leave the mode of autocommit as it was, whether they return
-- or raise.
pub tpc-autocommit :
    (F : Foreign) (paramstyle : Style) (fuel : ℕ) (xid : Option Xid) (w : World)
    → ((tpc_recover F paramstyle fuel w).1.conn.autocommit ≡ w.conn.autocommit)
      × ((tpc_commit F paramstyle fuel xid w).1.conn.autocommit ≡ w.conn.autocommit)
      × ((tpc_rollback F paramstyle fuel xid w).1.conn.autocommit ≡ w.conn.autocommit)
unfolding tpc_recover tpc_commit tpc_rollback
tpc-autocommit F paramstyle fuel xid w = (
  with_autocommit-mode _ w,
  finish-mode F paramstyle fuel (codes "COMMIT PREPARED") (commit F fuel)
      (chosen F paramstyle xid w.conn) w,
  finish-mode F paramstyle fuel (codes "ROLLBACK PREPARED") (rollback F fuel)
      (chosen F paramstyle xid w.conn) w,
)
