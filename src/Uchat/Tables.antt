-- ===== src/Uchat/Tables.antt =====
-- models/members.go and models/chat_rooms.go: the members and the chat rooms, and what the
-- callbacks ask of the database. The database (gorm) is a parameter: `none` is an error of it.
-- Int is int32, and the texts are compared only.
pub mod Memory
use mathlib.Core.Logic.{ite}
use zhiya.Prelude.{
  ℕ, zero, suc, ◌+◌, ◌≡◌, ◌≢◌, ◌↔◌, ◌⊎◌, Bool, true, false, ◌&&◌, Option, none, some, List, [], ◌∷◌,
  ◌++◌, map, ◌==◌, ◌||◌, if◌then◌else◌,
}

pub record ChatRoomMember (Text Time Int : Type 0) : Type 0 where
  pub id : ℕ
  pub chat_room_serial_no : Text
  pub wx_id : Text
  pub wx_user_serial_no : Text
  pub nick_name : Text
  pub base64_nick_name : Text
  pub head_images : Text
  pub join_chat_room_type : Int
  pub father_wx_user_serial_no : Text
  pub msg_count : Int
  pub last_msg_date : Time
  pub join_date : Time
  pub quit_date : Time
  pub is_active : Bool
  pub is_admin : Bool
  pub is_robot : Bool
  pub is_manager : Bool

-- The fields that the callbacks of members read or write.
pub record ChatRoom (Text : Type 0) : Type 0 where
  pub id : ℕ
  pub chat_room_serial_no : Text
  pub chat_room_id : Text
  pub member_count : ℕ

-- The updates of columns: the quit date with `is_active`, the count of messages (msg_count + n)
-- with the date of the last one, and `is_active` alone.
pub data Change (Time Int : Type 0) : Type 0 where
  quits : Time → Change Time Int
  counts : Int → Time → Change Time Int
  sets_active : Bool → Change Time Int

-- `first_member` and `first_room` find the first row, if there is one. The conditions of `first_member`
-- are the fields of a struct, of which gorm leaves those out that are `empty`, the empty text.
-- `save_member` inserts a row
-- whose id is 0, and replaces any other. `update_members` changes the rows of a chat room and a
-- user, with the id, unless that is 0.
pub record Tables (Text Time Int Db : Type 0) : Type 0 where
  pub empty : Text
  pub first_member : Text → Text → Db → Option (Option (ChatRoomMember Text Time Int))
  pub active_members : Text → Db → Option (List (ChatRoomMember Text Time Int))
  pub save_member : ChatRoomMember Text Time Int → Db → Option Db
  pub update_members : ℕ → Text → Text → Change Time Int → Db → Option Db
  pub count_active : Text → Db → Option ℕ
  pub first_room : Text → Db → Option (Option (ChatRoom Text))
  pub save_room : ChatRoom Text → Db → Option Db

abbrev pub Among : {A : Type 0} → A → List A → Type 0
Among a [] = ⊥
Among a (x ∷ l) = (a ≡ x) ⊎ Among a l

module _ {Text Time Int : Type 0} (dec : Discrete Text) where
  unfoldable pub is_of : Text → Text → ChatRoomMember Text Time Int → Bool
  is_of room user m =
      ite (dec m.chat_room_serial_no room) (ite (dec m.wx_user_serial_no user) true false) false

  unfoldable pub active_in : Text → ChatRoomMember Text Time Int → Bool
  active_in room m = ite (dec m.chat_room_serial_no room) m.is_active false

  unfoldable pub active_count : Text → List (ChatRoomMember Text Time Int) → ℕ
  active_count room [] = 0
  active_count room (m ∷ l) = (if active_in room m then 1 else 0) + active_count room l

  module _ (plus : Int → Int → Int) where
    unfoldable pub change :
        Change Time Int → ChatRoomMember Text Time Int → ChatRoomMember Text Time Int
    change (quits d) m = record m { quit_date = d; is_active = false }
    change (counts n d) m = record m { msg_count = plus m.msg_count n; last_msg_date = d }
    change (sets_active b) m = record m { is_active = b }

    unfoldable pub change_where :
        ℕ
        → Text
        → Text
        → Change Time Int
        → ChatRoomMember Text Time Int
        → ChatRoomMember Text Time Int
    change_where id room user c m =
        if ((id == 0) || (id == m.id)) && is_of room user m then change c m else m

unfoldable pub replace_member :
    {Text Time Int : Type 0}
    → ChatRoomMember Text Time Int
    → ChatRoomMember Text Time Int
    → ChatRoomMember Text Time Int
replace_member new m = if m.id == new.id then new else m

unfoldable pub replace_room : {Text : Type 0} → ChatRoom Text → ChatRoom Text → ChatRoom Text
replace_room new c = if c.id == new.id then new else c

-- What gorm documents of these calls, where they succeed, about the rows that a database holds.
pub record IsLawful {Text Time Int Db : Type 0} (T : Tables Text Time Int Db)
    (members : Db → List (ChatRoomMember Text Time Int)) (rooms : Db → List (ChatRoom Text))
    (dec : Discrete Text) (plus : Int → Int → Int) : Type 0 where
  pub first_member-some :
      (room user : Text) (db : Db) (m : ChatRoomMember Text Time Int)
      → room ≢ T.empty
      → user ≢ T.empty
      → T.first_member room user db ≡ some (some m)
      → Among m (members db)
        × (m.id ≢ 0)
        × (m.chat_room_serial_no ≡ room)
        × (m.wx_user_serial_no ≡ user)
  -- The id is a primary key.
  pub first_member-unique :
      (room user : Text) (db : Db) (m r : ChatRoomMember Text Time Int)
      → T.first_member room user db ≡ some (some m)
      → Among r (members db)
      → r.id ≡ m.id
      → r ≡ m
  pub save_member-new :
      (m : ChatRoomMember Text Time Int) (db db' : Db)
      → T.save_member m db ≡ some db'
      → m.id ≡ 0
      → (n : ℕ) × (members db' ≡ members db ++ record m { id = n } ∷ [])
  pub save_member-old :
      (m : ChatRoomMember Text Time Int) (db db' : Db)
      → T.save_member m db ≡ some db'
      → m.id ≢ 0
      → members db' ≡ map (replace_member m) (members db)
  pub save_member-rooms :
      (m : ChatRoomMember Text Time Int) (db db' : Db)
      → T.save_member m db ≡ some db'
      → rooms db' ≡ rooms db
  pub update_members-members :
      (id : ℕ) (room user : Text) (c : Change Time Int) (db db' : Db)
      → T.update_members id room user c db ≡ some db'
      → members db' ≡ map (change_where dec plus id room user c) (members db)
  pub update_members-rooms :
      (id : ℕ) (room user : Text) (c : Change Time Int) (db db' : Db)
      → T.update_members id room user c db ≡ some db'
      → rooms db' ≡ rooms db
  pub active_members-some :
      (room : Text) (db : Db) (l : List (ChatRoomMember Text Time Int))
      (m : ChatRoomMember Text Time Int)
      → T.active_members room db ≡ some l
      → Among m l ↔ (Among m (members db) × (active_in dec room m ≡ true))
  pub count_active-some :
      (room : Text) (db : Db) (n : ℕ)
      → T.count_active room db ≡ some n
      → n ≡ active_count dec room (members db)
  pub first_room-some :
      (room : Text) (db : Db) (c : ChatRoom Text)
      → T.first_room room db ≡ some (some c)
      → Among c (rooms db) × (c.chat_room_serial_no ≡ room)
  -- The chat rooms have an unique index on their serial number.
  pub first_room-unique :
      (room : Text) (db : Db) (c d : ChatRoom Text)
      → T.first_room room db ≡ some (some c)
      → Among d (rooms db)
      → d.chat_room_serial_no ≡ room
      → d ≡ c
  pub first_room-none :
      (room : Text) (db : Db) (d : ChatRoom Text)
      → T.first_room room db ≡ some none
      → Among d (rooms db)
      → d.chat_room_serial_no ≢ room
  pub save_room-rooms :
      (c : ChatRoom Text) (db db' : Db)
      → T.save_room c db ≡ some db'
      → rooms db' ≡ map (replace_room c) (rooms db)
  pub save_room-members :
      (c : ChatRoom Text) (db db' : Db) → T.save_room c db ≡ some db' → members db' ≡ members db

-- The calls of the count of members never fail: its errors are not looked at.
pub record CountWorks {Text Time Int Db : Type 0} (T : Tables Text Time Int Db) : Type 0 where
  pub first_room-works : (room : Text) (db : Db) → T.first_room room db ≢ none
  pub count_active-works : (room : Text) (db : Db) → T.count_active room db ≢ none
  pub save_room-works : (c : ChatRoom Text) (db : Db) → T.save_room c db ≢ none
