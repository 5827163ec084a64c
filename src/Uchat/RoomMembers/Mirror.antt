-- ===== src/Uchat/RoomMembers/Mirror.antt =====
-- uchat/callback.go: SyncChatRoomMembersCallback makes the active members those of the list.
use zhiya.Prelude.{ℕ, ◌≡◌, ◌↔◌, Bool, Option, some, List}
use zhiya.Uchat.Tables.{ChatRoomMember, ChatRoom, Tables, IsLawful, Among}
use zhiya.Uchat.RoomMembers.{Payload, Row}
use zhiya.Uchat.RoomMembers.Active.{IsActive}

module _ {Text Time Int Db : Type 0} (T : Tables Text Time Int Db)
    (members : Db → List (ChatRoomMember Text Time Int)) (rooms : Db → List (ChatRoom Text))
    (dec : Discrete Text) (plus : Int → Int → Int) (L : IsLawful T members rooms dec plus) where
  module _ (blank : Text) (no_time : Time) (zero_int : Int) (base64 : Text → Option Text)
      (has_one : Text → Bool) where
    -- The active members of a chat room are the users of a list.
    abbrev pub IsMirror : Text → List Text → Db → Type 0
    IsMirror room serials db =
        (user : Text) → IsActive T members rooms dec plus L room user db ↔ Among user serials

    module _ (decode : List ℕ → Option (Payload Text)) (trim : Text → Text)
        (decode_list : Text → Option (List (Row Text Time Int))) where
      -- A payload whose callback comes to its end has a chat room and a list.
      abbrev pub IsRead : Payload Text → Text → List (Row Text Time Int) → Type 0
      IsRead rst room rows =
          (d : Text) × (rst.vc_chat_room_serial_no ≡ some room)
          × (rst.data' ≡ some d)
          × (decode_list (trim d) ≡ some rows)
