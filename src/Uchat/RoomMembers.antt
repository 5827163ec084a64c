-- ===== src/Uchat/RoomMembers.antt =====
-- uchat/callback.go: the callback for the list of a chat room's members, with models/members.go.
-- The JSON decoder, base64 and strings are parameters; `trim` takes the brackets and the spaces
-- around the list away. The new picture of the chat room, which another goroutine makes at the
-- end, is not a part. The Db beside an error is the one that the callback leaves.
pub mod Active
pub mod Closed
pub mod Listed
pub mod Mirror
mod Examples
use mathlib.Core.Logic.{ite}
use zhiya.Prelude.{
  ℕ, zero, suc, Bool, true, false, Option, none, some, List, [], ◌∷◌, ◌++◌, ◌==◌, if◌then◌else◌,
}
use zhiya.Uchat.Tables.{ChatRoomMember, ChatRoom, Tables, sets_active}
use zhiya.Uchat.Members.{
  Failure, bad_json, missing_key, db_failed, and_then, call, apply_member_count,
}

-- FixUchatJsonBinary: a body without its line feeds.
unfoldable pub fix_uchat_json_binary : List ℕ → List ℕ
fix_uchat_json_binary [] = []
fix_uchat_json_binary (b ∷ bs) =
    let rest = fix_uchat_json_binary bs in if b == 10 then rest else b ∷ rest

pub record Payload (Text : Type 0) : Type 0 where
  pub vc_chat_room_serial_no : Option Text
  pub vc_chat_room_id : Option Text
  pub data' : Option Text

-- The values of an entry, with the number and the date that are read of their texts.
pub record Row (Text Time Int : Type 0) : Type 0 where
  pub vc_serial_no : Text
  pub vc_weixin_id : Text
  pub vc_nick_name : Text
  pub vc_base64_nick_name : Text
  pub vc_head_images : Text
  pub n_join_chat_room_type : Int
  pub vc_father_wx_user_serial_no : Text
  pub dt_create_date : Time
  pub n_is_admin : Text
  pub n_is_robot : Text
  pub n_is_manager : Text

-- What the loop over the entries leaves: the serial numbers of the users that it saved.
pub data Saved (Text : Type 0) : Type 0 where
  stops : Failure → Saved Text
  saved : List Text → Saved Text

-- goutils.InStringSlice.
unfoldable pub in_string_slice : {Text : Type 0} → Discrete Text → List Text → Text → Bool
in_string_slice dec [] s = false
in_string_slice dec (x ∷ l) s = ite (dec x s) true (in_string_slice dec l s)

module _ {Text Db : Type 0} where
  unfoldable pub add_serials : List Text → Db × Saved Text → Db × Saved Text
  add_serials l (db, stops e) = (db, stops e)
  add_serials l (db, saved k) = (db, saved (l ++ k))

  unfoldable pub save_next : Db × Saved Text → (Db → Db × Saved Text) → Db × Saved Text
  save_next (db, stops e) f = (db, stops e)
  save_next (db, saved l) f = add_serials l (f db)

module _ {Text Time Int Db : Type 0} (T : Tables Text Time Int Db) where
  -- The zero values of a new member, but for its chat room and its user.
  module _ (blank : Text) (no_time : Time) (zero_int : Int) where
    unfoldable pub new_member : Text → Text → ChatRoomMember Text Time Int
    new_member room user = record {
      id = 0;
      chat_room_serial_no = room;
      wx_id = blank;
      wx_user_serial_no = user;
      nick_name = blank;
      base64_nick_name = blank;
      head_images = blank;
      join_chat_room_type = zero_int;
      father_wx_user_serial_no = blank;
      msg_count = zero_int;
      last_msg_date = no_time;
      join_date = no_time;
      quit_date = no_time;
      is_active = false;
      is_admin = false;
      is_robot = false;
      is_manager = false;
    }

    -- Ensure: the first row, or a new one, that is not stored yet.
    unfoldable pub ensure : Text → Text → Db → Option (ChatRoomMember Text Time Int)
    ensure room user db = elim (T.first_member room user db) [
      | none ↦ none
      | some none ↦ some (new_member room user)
      | some (some m) ↦ some m
    ]

    -- base64 is `none` where it refuses the text, and `has_one` is strings.Contains(s, "1").
    module _ (base64 : Text → Option Text) (has_one : Text → Bool) where
      unfoldable pub nick_name_of : Option Text → Text → Text
      nick_name_of none name = name
      nick_name_of (some decoded) name = decoded

      unfoldable pub fill :
          Row Text Time Int → ChatRoomMember Text Time Int → ChatRoomMember Text Time Int
      fill v m = record m {
        wx_id = v.vc_weixin_id;
        nick_name = nick_name_of (base64 v.vc_base64_nick_name) v.vc_nick_name;
        base64_nick_name = v.vc_base64_nick_name;
        head_images = v.vc_head_images;
        join_chat_room_type = v.n_join_chat_room_type;
        father_wx_user_serial_no = v.vc_father_wx_user_serial_no;
        is_active = true;
        join_date = v.dt_create_date;
        is_admin = has_one v.n_is_admin;
        is_robot = has_one v.n_is_robot;
        is_manager = has_one v.n_is_manager;
      }

      unfoldable pub save_found :
          Row Text Time Int → Option (ChatRoomMember Text Time Int) → Db → Db × Saved Text
      save_found v none db = (db, stops db_failed)
      save_found v (some m) db = elim (T.save_member (fill v m) db) [
        | none ↦ (db, stops db_failed)
        | some db' ↦ (db', saved (m.wx_user_serial_no ∷ []))
      ]

      -- `for _, v := range list.ChatRoomUserData`.
      unfoldable pub save_rows : Text → List (Row Text Time Int) → Db → Db × Saved Text
      save_rows room [] db = (db, saved [])
      save_rows room (v ∷ rows) db =
          save_next (save_found v (ensure room v.vc_serial_no db) db) (save_rows room rows)

  module _ (dec : Discrete Text) where
    unfoldable pub unactive : ChatRoomMember Text Time Int → Db → Db × Option Failure
    unactive m db =
        call
          (T.update_members m.id m.chat_room_serial_no m.wx_user_serial_no (sets_active false) db)
          db

    -- `for _, member := range members`.
    unfoldable pub close_rows :
        List Text → List (ChatRoomMember Text Time Int) → Db → Db × Option Failure
    close_rows serials [] db = (db, none)
    close_rows serials (m ∷ members) db =
        and_then
          (if in_string_slice dec serials m.wx_user_serial_no then (db, none) else unactive m db)
          (close_rows serials members)

  -- The error of the Save is not looked at.
  unfoldable pub store_id : Option Text → ChatRoom Text → Db → ChatRoom Text × Db
  store_id none c db = (c, db)
  store_id (some i) c db = elim (T.save_room (record c { chat_room_id = i }) db) [
    | none ↦ (record c { chat_room_id = i }, db)
    | some db' ↦ (record c { chat_room_id = i }, db')
  ]

  unfoldable pub count_room : ChatRoom Text × Db → Db
  count_room (c, db) = let (db', n) = apply_member_count T c db in db'

  -- The update of the chat room at the end, which has no error.
  unfoldable pub update_found : Option Text → Option (Option (ChatRoom Text)) → Db → Db
  update_found i none db = db
  update_found i (some none) db = db
  update_found i (some (some c)) db = if c.id == 0 then db else count_room (store_id i c db)

  unfoldable pub update_room : Option Text → Text → Db → Db × Option Failure
  update_room i room db = (update_found i (T.first_room room db) db, none)

  module _ (dec : Discrete Text) (blank : Text) (no_time : Time) (zero_int : Int)
      (base64 : Text → Option Text) (has_one : Text → Bool) where
    unfoldable pub then_close :
        List (ChatRoomMember Text Time Int) → Db × Saved Text → Db × Option Failure
    then_close members (db, stops e) = (db, some e)
    then_close members (db, saved serials) = close_rows dec serials members db

    unfoldable pub sync_rows :
        Option Text → Text → List (Row Text Time Int) → Db → Db × Option Failure
    sync_rows i room rows db = elim (T.active_members room db) [
      | none ↦ (db, some db_failed)
      | some members ↦
          and_then
            (then_close members (save_rows blank no_time zero_int base64 has_one room rows db))
            (update_room i room)
    ]

    module _ (decode : List ℕ → Option (Payload Text)) (trim : Text → Text)
        (decode_list : Text → Option (List (Row Text Time Int))) where
      unfoldable pub sync_payload : Payload Text → Db → Db × Option Failure
      sync_payload rst db = elim rst.vc_chat_room_serial_no [
        | none ↦ (db, some missing_key)
        | some room ↦ elim rst.data' [
          | none ↦ (db, some missing_key)
          | some d ↦ elim (decode_list (trim d)) [
            | none ↦ (db, some bad_json)
            | some rows ↦ sync_rows rst.vc_chat_room_id room rows db
          ]
        ]
      ]

      unfoldable pub sync_chat_room_members_callback : List ℕ → Db → Db × Option Failure
      sync_chat_room_members_callback b db = elim (decode (fix_uchat_json_binary b)) [
        | none ↦ (db, some bad_json)
        | some rst ↦ sync_payload rst db
      ]
