-- ===== src/Uchat/Members/Examples.antt =====
-- uchat/sync.go: the theorems on the callbacks at a database in memory. Texts, times and counts are
-- numbers, and every body has the chat room 7 and one list.
use zhiya.Prelude.{
  ℕ, ◌+◌, ◌≡◌, refl, true, false, Option, none, some, List, [], ◌∷◌, map, ℕ_discrete, dec_lt,
}
use zhiya.Uchat.Tables.{
  ChatRoomMember, ChatRoom, is_of, active_in, active_count, change, change_where, replace_room,
}
use zhiya.Uchat.Tables.Memory.{Memory, memory, rooms_in, memory-IsLawful, memory-CountWorks}
use zhiya.Uchat.Members.{
  Payload, QuitRow, SumRow, and_then, each, call, with_list, with_data, apply_member_count,
  count_found, apply_chat_room_member_count, recounted, recount, quit_row,
  sync_member_quit_callback,
}
use zhiya.Uchat.Members.Rows.{rows_of}
use zhiya.Uchat.Members.Counts.{IsCounted}
use zhiya.Uchat.Members.Quit.{after_quit}
use zhiya.Uchat.Members.Repeated.{
  NamesRoom, sync_member_quit_callback-members, sync_member_quit_callback-sync_member_quit_callback,
}

abbrev member : ℕ → ℕ → ChatRoomMember ℕ ℕ ℕ
member id user = record {
  id = id;
  chat_room_serial_no = 7;
  wx_id = 0;
  wx_user_serial_no = user;
  nick_name = 0;
  base64_nick_name = 0;
  head_images = 0;
  join_chat_room_type = 0;
  father_wx_user_serial_no = 0;
  msg_count = 5;
  last_msg_date = 0;
  join_date = 0;
  quit_date = 0;
  is_active = true;
  is_admin = false;
  is_robot = false;
  is_manager = false;
}

abbrev room : ℕ → ChatRoom ℕ
room n = record { id = 1; chat_room_serial_no = 7; chat_room_id = 0; member_count = n }

abbrev db : Memory
db = record { rows = member 1 3 ∷ member 2 4 ∷ []; room = room 2 }

abbrev payload : ℕ → Option (Payload ℕ)
payload b = some (record { vc_chat_room_serial_no = some 7; data' = some b })

abbrev quits_list : ℕ → Option (List (QuitRow ℕ ℕ))
quits_list d =
    some (record { vc_chat_room_serial_no = 7; vc_wx_user_serial_no = 3; dt_create_date = 20 } ∷ [])

abbrev db_quit : Memory
db_quit = record {
  rows = record (member 1 3) { quit_date = 20; is_active = false } ∷ member 2 4 ∷ [];
  room = room 1;
}

quit_run : sync_member_quit_callback memory payload quits_list 0 db ≡ (db_quit, none)
unfolding sync_member_quit_callback with_data with_list each and_then call quit_row recount
    recounted apply_chat_room_member_count count_found apply_member_count memory change_where change
    is_of active_in active_count replace_room ℕ_discrete dec_lt
quit_run = refl

quit_again : sync_member_quit_callback memory payload quits_list 0 db_quit ≡ (db_quit, none)
unfolding sync_member_quit_callback with_data with_list each and_then call quit_row recount
    recounted apply_chat_room_member_count count_found apply_member_count memory change_where change
    is_of active_in active_count replace_room ℕ_discrete dec_lt
quit_again = refl

sync_member_quit_callback-members_example :
    (list : List (QuitRow ℕ ℕ)) × (rows_of payload quits_list 0 ≡ some list)
    × (db_quit.rows ≡ map (after_quit ℕ_discrete list) db.rows)
    × ((r : ℕ) → NamesRoom r list → IsCounted memory Memory.rows rooms_in ℕ_discrete r db_quit)
sync_member_quit_callback-members_example =
    sync_member_quit_callback-members memory Memory.rows rooms_in ℕ_discrete ◌+◌ memory-IsLawful
      memory-CountWorks payload quits_list 0 db db_quit quit_run

sync_member_quit_callback-sync_member_quit_callback_example :
    Memory.rows db_quit ≡ Memory.rows db_quit
sync_member_quit_callback-sync_member_quit_callback_example =
    sync_member_quit_callback-sync_member_quit_callback memory Memory.rows rooms_in ℕ_discrete ◌+◌
      memory-IsLawful memory-CountWorks payload quits_list 0 db db_quit db_quit quit_run quit_again

abbrev sums_list : ℕ → Option (List (SumRow ℕ ℕ ℕ))
sums_list d = some (record { vc_wx_serial_no = 3; n_msg_count = 10; dt_last_msg_date = 30 } ∷ [])

abbrev db_sums : ℕ → Memory
db_sums n = record {
  rows = record (member 1 3) { msg_count = n; last_msg_date = 30 } ∷ member 2 4 ∷ [];
  room = room 2;
}
