-- ===== src/Uchat/Members.antt =====
-- uchat/sync.go: the callbacks of members that quit or wrote messages, with the counts of
-- models/chat_rooms.go. The JSON decoder is a parameter; `row` is an entry of its list, with the
-- values that the callback reads. The Db beside an error is the one that the callback leaves.
pub mod Counts
pub mod Rows
pub mod Quit
pub mod Repeated
pub mod Sums
mod Examples
use mathlib.Core.Logic.{ite}
use zhiya.Prelude.{ℕ, zero, suc, Bool, true, false, Option, none, some, List, [], ◌∷◌}
use zhiya.Uchat.Tables.{ChatRoomMember, ChatRoom, Change, Tables, quits, counts}

pub data Failure : Type 0 where
  bad_json : Failure
  missing_key : Failure
  db_failed : Failure

-- What the callbacks look for in the object that the service sends.
pub record Payload (Text : Type 0) : Type 0 where
  pub vc_chat_room_serial_no : Option Text
  pub data' : Option Text

pub record QuitRow (Text Time : Type 0) : Type 0 where
  pub vc_chat_room_serial_no : Text
  pub vc_wx_user_serial_no : Text
  pub dt_create_date : Time

pub record SumRow (Text Time Int : Type 0) : Type 0 where
  pub vc_wx_serial_no : Text
  pub n_msg_count : Int
  pub dt_last_msg_date : Time

-- `for _, v := range list`, which the first error ends.
module _ {Db : Type 0} where
  unfoldable pub and_then : Db × Option Failure → (Db → Db × Option Failure) → Db × Option Failure
  and_then (db, none) f = f db
  and_then (db, some e) f = (db, some e)

  unfoldable pub each :
      {Row : Type 0} → (Row → Db → Db × Option Failure) → List Row → Db → Db × Option Failure
  each f [] db = (db, none)
  each f (v ∷ list) db = and_then (f v db) (each f list)

  -- A call of the database, whose error is returned.
  unfoldable pub call : Option Db → Db → Db × Option Failure
  call none db = (db, some db_failed)
  call (some db') db = (db', none)

unfoldable pub with_list :
    {Text Db Row : Type 0}
    → (Text → Option (List Row))
    → Option Text
    → (List Row → Db → Db × Option Failure)
    → Db
    → Db × Option Failure
with_list decode_list none f db = (db, some missing_key)
with_list decode_list (some d) f db = elim (decode_list d) [
  | none ↦ (db, some bad_json)
  | some list ↦ f list db
]

module _ {Text Bytes Db : Type 0} (decode : Bytes → Option (Payload Text)) where
  -- The beginning of the callbacks that read `Data`.
  unfoldable pub with_data :
      {Row : Type 0}
      → (Text → Option (List Row))
      → Bytes
      → (List Row → Db → Db × Option Failure)
      → Db
      → Db × Option Failure
  with_data decode_list b f db = elim (decode b) [
    | none ↦ (db, some bad_json)
    | some rst ↦ with_list decode_list rst.data' f db
  ]

  -- The beginning of those that read `vcChatRoomSerialNo` and `Data`.
  unfoldable pub with_room :
      {Row : Type 0}
      → (Text → Option (List Row))
      → Bytes
      → (Text → List Row → Db → Db × Option Failure)
      → Db
      → Db × Option Failure
  with_room decode_list b f db = elim (decode b) [
    | none ↦ (db, some bad_json)
    | some rst ↦ elim rst.vc_chat_room_serial_no [
      | none ↦ (db, some missing_key)
      | some room ↦ with_list decode_list rst.data' (f room) db
    ]
  ]

module _ {Text Time Int Db : Type 0} (T : Tables Text Time Int Db) where
  -- (c *ChatRoom) ApplyMemberCount.
  unfoldable pub apply_member_count : ChatRoom Text → Db → Db × ℕ
  apply_member_count c db = elim (T.count_active c.chat_room_serial_no db) [
    | none ↦ (db, 0)
    | some n ↦ elim (T.save_room (record c { member_count = n }) db) [
      | none ↦ (db, n)
      | some db' ↦ (db', n)
    ]
  ]

  -- `none` is the error.
  unfoldable pub count_found : Option (Option (ChatRoom Text)) → Db → Db × Option ℕ
  count_found none db = (db, none)
  count_found (some none) db = (db, none)
  count_found (some (some c)) db = let (db', n) = apply_member_count c db in (db', some n)

  unfoldable pub apply_chat_room_member_count : Text → Db → Db × Option ℕ
  apply_chat_room_member_count room db = count_found (T.first_room room db) db

  -- The call of it whose result is not used.
  unfoldable pub recounted : Text → Db → Db
  recounted room db = let (db', n) = apply_chat_room_member_count room db in db'

  unfoldable pub recount : Text → Db → Db × Option Failure
  recount room db = (recounted room db, none)

  unfoldable pub quit_row : QuitRow Text Time → Db → Db × Option Failure
  quit_row v db =
      and_then
        (call
          (T.update_members 0 v.vc_chat_room_serial_no v.vc_wx_user_serial_no
            (quits v.dt_create_date) db)
          db)
        (recount v.vc_chat_room_serial_no)

  unfoldable pub sum_row : Text → SumRow Text Time Int → Db → Db × Option Failure
  sum_row room v db =
      call (T.update_members 0 room v.vc_wx_serial_no (counts v.n_msg_count v.dt_last_msg_date) db)
        db

  module _ {Bytes : Type 0} (decode : Bytes → Option (Payload Text)) where
    unfoldable pub sync_member_quit_callback :
        (Text → Option (List (QuitRow Text Time))) → Bytes → Db → Db × Option Failure
    sync_member_quit_callback decode_list b db = with_data decode decode_list b (each quit_row) db

    unfoldable pub sync_member_message_sum_callback :
        (Text → Option (List (SumRow Text Time Int))) → Bytes → Db → Db × Option Failure
    sync_member_message_sum_callback decode_list b db =
        with_room decode decode_list b (λ room. each (sum_row room)) db
