-- ===== src/Apis/RobotJoin.antt =====
-- models/robot_join.go, and OpenChatRoom and DeleteRobotJoin of apis/api_v2.go. The database
-- (gorm) and the chat service are parameters; a transaction is the state of the database that its
-- calls leave, and a rollback goes back to the state before it. `commit` tells whether a commit goes
-- through: the handlers do not look at its error, and one that fails leaves the state before.
pub mod Transitions
mod Examples
use mathlib.Core.Logic.{ite}
use zhiya.Prelude.{
  ℕ, zero, suc, Bool, true, false, ◌&&◌, Option, none, some, List, [], ◌∷◌, ◌++◌, ltb, ◌==◌,
  if◌then◌else◌,
}

-- The columns that the handlers read. `status` is 0 unhandled, 1 opened, 2 deleted.
pub record RobotJoin (Text : Type 0) : Type 0 where
  pub id : ℕ
  pub my_id : Text
  pub log_serial_no : Text
  pub status : ℕ

-- What the handlers answer: the data, or the error with its code.
pub data Answer : Type 0 where
  error_100001 : Answer
  error_100003 : Answer
  error_100004 : Answer
  error_100005 : Answer
  error_100006 : Answer
  return_data : Answer

-- `find` selects the rows of `my_id` with status 0 and one of the log numbers, and `save` writes a
-- row; `none` is an error. `pull` tells whether the chat service opens the chat rooms.
module _ {Db Text : Type 0} (save : RobotJoin Text → Db → Option Db) where
  unfoldable pub set_status_open : RobotJoin Text → Db → Option Db
  set_status_open c db =
      if ltb 0 c.id && (c.status == 0) then save (record c { status = 1 }) db else none

  unfoldable pub set_status_delete : RobotJoin Text → Db → Option Db
  set_status_delete c db =
      if ltb 0 c.id && (c.status == 0) then save (record c { status = 2 }) db else none

  -- The loop of OpenChatRoom, with the log numbers that it gathers.
  unfoldable pub open_loop : List (RobotJoin Text) → List Text → Db → Option (Db × List Text)
  open_loop [] logs tx = some (tx, logs)
  open_loop (v ∷ vs) logs tx = elim (set_status_open v tx) [
    | none ↦ none
    | some tx' ↦ open_loop vs (logs ++ v.log_serial_no ∷ []) tx'
  ]

  -- The loop of DeleteRobotJoin.
  unfoldable pub delete_loop : List (RobotJoin Text) → Db → Option Db
  delete_loop [] tx = some tx
  delete_loop (v ∷ vs) tx = elim (set_status_delete v tx) [
    | none ↦ none
    | some tx' ↦ delete_loop vs tx'
  ]

module _ {Db Text : Type 0} (dec : Discrete Text) (blank : Text)
    (find : Db → Text → List Text → Option (List (RobotJoin Text)))
    (save : RobotJoin Text → Db → Option Db) (commit : Db → Bool) where
  -- The part of both handlers before the transaction.
  unfoldable pub select_rows : Db → Text → List Text → Option (List (RobotJoin Text)) × Answer
  select_rows db my_id [] = (none, ite (dec my_id blank) error_100001 error_100003)
  select_rows db my_id (log ∷ logs) =
      ite (dec my_id blank) (none, error_100001)
        (elim (find db my_id (log ∷ logs)) [
          | none ↦ (none, error_100004)
          | some [] ↦ (none, error_100003)
          | some (v ∷ vs) ↦ (some (v ∷ vs), return_data)
        ])

  -- The end of the transaction of DeleteRobotJoin: commit or rollback.
  unfoldable pub delete_commit : Db → Option Db → Db × Answer
  delete_commit db none = (db, error_100005)
  delete_commit db (some tx) = (if commit tx then tx else db, return_data)

  unfoldable pub delete_selected : Db → Option (List (RobotJoin Text)) × Answer → Db × Answer
  delete_selected db (none, answer) = (db, answer)
  delete_selected db (some vs, answer) = delete_commit db (delete_loop save vs db)

  unfoldable pub delete_robot_join : Db → Text → List Text → Db × Answer
  delete_robot_join db my_id logs = delete_selected db (select_rows db my_id logs)

  -- The end of the transaction of OpenChatRoom: the chat service decides on the commit.
  unfoldable pub open_commit : (List Text → Bool) → Db → Option (Db × List Text) → Db × Answer
  open_commit pull db none = (db, error_100005)
  open_commit pull db (some (tx, real_logs)) =
      if pull real_logs then (if commit tx then tx else db, return_data) else (db, error_100006)

  unfoldable pub open_selected :
      (List Text → Bool) → Db → Option (List (RobotJoin Text)) × Answer → Db × Answer
  open_selected pull db (none, answer) = (db, answer)
  open_selected pull db (some vs, answer) = open_commit pull db (open_loop save vs [] db)

  unfoldable pub open_chat_room : (List Text → Bool) → Db → Text → List Text → Db × Answer
  open_chat_room pull db my_id logs = open_selected pull db (select_rows db my_id logs)
