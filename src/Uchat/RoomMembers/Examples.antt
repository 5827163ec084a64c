-- ===== src/Uchat/RoomMembers/Examples.antt =====
-- uchat/callback.go: the theorem at a database in memory, with the members 3 and 4 and a list of the
-- users 4 and 5.
use zhiya.Prelude.{ℕ, Bool, true, false, Option, some, List, [], ◌∷◌}
use zhiya.Uchat.Tables.{ChatRoomMember, Tables}
use zhiya.Uchat.Tables.Memory.{Memory}
use zhiya.Uchat.RoomMembers.{Payload, Row}

abbrev member : ℕ → ℕ → Bool → ChatRoomMember ℕ ℕ ℕ
member id user active = record {
  id = id;
  chat_room_serial_no = 7;
  wx_id = 0;
  wx_user_serial_no = user;
  nick_name = 0;
  base64_nick_name = 0;
  head_images = 0;
  join_chat_room_type = 0;
  father_wx_user_serial_no = 0;
  msg_count = 0;
  last_msg_date = 0;
  join_date = 0;
  quit_date = 0;
  is_active = active;
  is_admin = false;
  is_robot = false;
  is_manager = false;
}

abbrev db : Memory
db = record {
  rows = member 1 3 true ∷ member 2 4 true ∷ [];
  room = record { id = 1; chat_room_serial_no = 7; chat_room_id = 0; member_count = 2 };
}

abbrev row : ℕ → Row ℕ ℕ ℕ
row user = record {
  vc_serial_no = user;
  vc_weixin_id = 0;
  vc_nick_name = 0;
  vc_base64_nick_name = 0;
  vc_head_images = 0;
  n_join_chat_room_type = 0;
  vc_father_wx_user_serial_no = 0;
  dt_create_date = 0;
  n_is_admin = 0;
  n_is_robot = 0;
  n_is_manager = 0;
}

abbrev payload : List ℕ → Option (Payload ℕ)
payload b =
    some (record { vc_chat_room_serial_no = some 7; vc_chat_room_id = some 9; data' = some 1 })

abbrev rows : ℕ → Option (List (Row ℕ ℕ ℕ))
rows d = some (row 4 ∷ row 5 ∷ [])

abbrev trimmed : ℕ → ℕ
trimmed t = t

abbrev decoded : ℕ → Option ℕ
decoded t = some t

abbrev never : ℕ → Bool
never t = false

abbrev db_after : Memory
db_after = record {
  rows = member 1 3 false ∷ member 2 4 true ∷ member 3 5 true ∷ [];
  room = record { id = 1; chat_room_serial_no = 7; chat_room_id = 9; member_count = 2 };
}
