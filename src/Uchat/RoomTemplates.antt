-- ===== src/Uchat/RoomTemplates.antt =====
-- uchat/template.go: ApplyChatRoomTemplate, which links a work template to chat rooms. The calls on
-- the database are parameters; those with conditions take them as a test on a row. A rollback goes
-- back to the database at the beginning of the transaction, with what was changed outside of it. The
-- count of chat rooms, which another goroutine makes, and the template that is read again at the end
-- are not a part.
pub mod Laws
pub mod Asked
pub mod Rows
pub mod Linked
pub mod Applied
mod Examples
use mathlib.Core.Logic.{ite}
use zhiya.Prelude.{
  ◌&&◌, ◌||◌, ◌==◌, ℕ, Bool, true, false, Option, none, some, List, [], ◌∷◌, map, if◌then◌else◌,
}
use zhiya.Uchat.RoomMembers.{in_string_slice}
use zhiya.Uchat.WorkTemplate.{WorkTemplate}

pub record Link (Text : Type 0) : Type 0 where
  pub chat_room_serial_no : Text
  pub cmd_type : Text
  pub work_template_id : Text

-- The fields of models.RobotChatRoom that the conditions read.
pub record RobotChatRoom (Text : Type 0) : Type 0 where
  pub chat_room_serial_no : Text
  pub is_open : Bool
  pub my_id : Text
  pub sub_id : Text

-- The calls, each `none` where it fails: the first template and the chat rooms that meet a condition
-- are looked for, the rows of a template and a type are deleted,
-- the template is taken from all its rows, it is set in the rows of chat rooms and a type, its rows
-- are found, rows for chat rooms are inserted, and the transaction is committed.
pub record Links (Text Db : Type 0) : Type 0 where
  pub first_template : (WorkTemplate Text → Bool) → Db → Option (WorkTemplate Text)
  pub find_rooms : (RobotChatRoom Text → Bool) → Db → Option (List (RobotChatRoom Text))
  pub delete_links : Text → Text → Db → Option Db
  pub clear_links : Text → Db → Option Db
  pub set_links : List Text → Text → Text → Db → Option Db
  pub find_links : Text → Db → Option (List (Link Text))
  pub insert_links : List Text → Text → Text → Db → Option Db
  pub commit : Db → Option Db

-- The chat rooms that have no row yet.
unfoldable pub missing_rooms : {Text : Type 0} → Discrete Text → List Text → List Text → List Text
missing_rooms dec exists [] = []
missing_rooms dec exists (room ∷ reals) =
    let rest = missing_rooms dec exists reals in
    if in_string_slice dec exists room then rest else room ∷ rest

module _ {Text Db : Type 0} (O : Links Text Db) where
  -- The end of a transaction on `db`, and whether there is no error.
  unfoldable pub end_tx : Db → Option Db → Db × Bool
  end_tx db none = (db, false)
  end_tx db (some tx) = elim (O.commit tx) [ none ↦ (db, false) | some db' ↦ (db', true) ]

  -- No statement where there is no row to insert.
  unfoldable pub insert_rows : List Text → Text → Text → Db → Option Db
  insert_rows [] cmd_type template tx = some tx
  insert_rows (room ∷ rooms) cmd_type template tx =
      O.insert_links (room ∷ rooms) cmd_type template tx

  -- For a type that allows many templates. The rows are deleted outside the transaction.
  unfoldable pub apply_multi : Text → Text → List Text → Db → Db × Bool
  apply_multi template cmd_type rooms db = elim (O.delete_links template cmd_type db) [
    | none ↦ (db, false)
    | some db' ↦ end_tx db' (insert_rows rooms cmd_type template db')
  ]

  module _ (dec : Discrete Text) where
    unfoldable pub insert_missing : Text → Text → List Text → Db → Option Db
    insert_missing template cmd_type reals tx = elim (O.find_links template tx) [
      | none ↦ none
      | some links ↦
          insert_rows (missing_rooms dec (map Link.chat_room_serial_no links) reals) cmd_type
            template tx
    ]

    unfoldable pub relink : Text → Text → List Text → Db → Option Db
    relink template cmd_type reals db = elim (O.clear_links template db) [
      | none ↦ none
      | some tx ↦ elim (O.set_links reals cmd_type template tx) [
        | none ↦ none
        | some tx' ↦ insert_missing template cmd_type reals tx'
      ]
    ]

    -- For any other type.
    unfoldable pub apply_single : Text → Text → List Text → Db → Db × Bool
    apply_single template cmd_type reals db = end_tx db (relink template cmd_type reals db)

    -- `allowed` is AllowMultiTemplatesCmdType.
    module _ (blank : Text) (allowed : List Text) where
      -- The sub id is a condition only where it is given.
      unfoldable pub of_sub : Text → Text → Bool
      of_sub sub_id found = ite (dec sub_id blank) true (ite (dec found sub_id) true false)

      unfoldable pub template_asked : Text → Text → Text → WorkTemplate Text → Bool
      template_asked my_id sub_id template t =
          ite (dec t.my_id my_id)
            (ite (dec t.work_template_id template)
              (of_sub sub_id t.sub_id && ((t.status == 0) || (t.status == 1))) false)
            false

      unfoldable pub room_asked : Text → Text → List Text → RobotChatRoom Text → Bool
      room_asked my_id sub_id rooms c =
          ite (dec c.my_id my_id)
            (of_sub sub_id c.sub_id
              && (c.is_open && in_string_slice dec rooms c.chat_room_serial_no))
            false

      unfoldable pub apply_real : Text → Text → Text → Text → List Text → Db → Db × Bool
      apply_real my_id sub_id template cmd_type rooms db =
          elim (O.find_rooms (room_asked my_id sub_id rooms) db) [
            | none ↦ (db, false)
            | some found ↦
                apply_single template cmd_type (map RobotChatRoom.chat_room_serial_no found) db
          ]

      unfoldable pub apply_found :
          Text → Text → List Text → Option (WorkTemplate Text) → Db → Db × Bool
      apply_found my_id sub_id rooms none db = (db, false)
      apply_found my_id sub_id rooms (some t) db =
          if in_string_slice dec allowed t.cmd_type
          then apply_multi t.work_template_id t.cmd_type rooms db
          else apply_real my_id sub_id t.work_template_id t.cmd_type rooms db

      unfoldable pub apply_chat_room_template : Text → Text → Text → List Text → Db → Db × Bool
      apply_chat_room_template my_id sub_id template rooms db =
          apply_found my_id sub_id rooms
            (O.first_template (template_asked my_id sub_id template) db) db
