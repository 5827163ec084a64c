-- ===== src/Uchat/MemberJoin/Examples.antt =====
-- uchat/sync.go: the theorem at a database in memory, with the member 3 and a list that names the
-- user 5. The table of messages stores nothing, and every welcome is the text 6.
use mathlib.Core.Path.{subst}
use zhiya.Prelude.{
  ℕ, ◌+◌, ◌≡◌, ◌≢◌, inl, inr, arith, refl, sym, ap, Bool, true, false, Option, none, some, List, [],
  ◌∷◌, some-eq-some, ℕ_discrete, dec_lt,
}
use zhiya.Uchat.Tables.{
  ChatRoomMember, ChatRoom, Tables, Among, is_of, active_in, active_count, replace_member,
  replace_room,
}
use zhiya.Uchat.Tables.Memory.{
  Memory, memory, rooms_in, find_member, occurrences, alone, save_row, memory-IsLawful,
  memory-CountWorks,
}
use zhiya.Uchat.Members.{
  Payload, and_then, each, call, with_list, with_data, apply_member_count, count_found,
  apply_chat_room_member_count, recounted, recount,
}
use zhiya.Uchat.Members.Rows.{rows_of}
use zhiya.Uchat.RoomMembers.{new_member, ensure}
use zhiya.Uchat.JoinMessage.{
  Message, Messages, send_chat_room_member_text_message, send_content, store_message, save_created,
  finish, new_message, content_of, link_of,
}
use zhiya.Uchat.MemberJoin.{
  JoinRow, joins, send_welcome, save_join, join_row, sync_member_join_callback,
}
use zhiya.Uchat.MemberJoin.Kept.{LeavesTables}
use zhiya.Uchat.MemberJoin.Joined.{Active}
use zhiya.Uchat.MemberJoin.Everyone.{sync_member_join_callback-Active}

unfoldable no_table : Messages ℕ Memory
no_table = record {
  pending = λ room db. some none;
  create = λ m db. some (db, 1);
  save = λ m db. some db;
  commit = some;
}

same_view :
    (m : Message ℕ) (db db' : Memory) (n : ℕ)
    → ◌≡◌ {A = Option (Memory × ℕ)} (some (db, 1)) (some (db', n))
    → Memory.rows db' ≡ Memory.rows db
same_view m db db' n h = let e : db ≡ db' = cc in ap Memory.rows (sym e)

no_table-LeavesTables : LeavesTables no_table Memory.rows
unfolding no_table
no_table-LeavesTables = record {
  create-view = λ m db db' n h. same_view m db db' n h;
  save-view = λ m db db' h. ap Memory.rows (sym (some-eq-some h));
  commit-view = λ db db' h. ap Memory.rows (sym (some-eq-some h));
}

abbrev member : ℕ → ℕ → ChatRoomMember ℕ ℕ ℕ
member id user = record {
  id = id;
  chat_room_serial_no = 7;
  wx_id = 0;
  wx_user_serial_no = user;
  nick_name = 0;
  base64_nick_name = 0;
  head_images = 0;
  join_chat_room_type = 0;
  father_wx_user_serial_no = 0;
  msg_count = 0;
  last_msg_date = 0;
  join_date = 0;
  quit_date = 0;
  is_active = true;
  is_admin = false;
  is_robot = false;
  is_manager = false;
}

abbrev room : ℕ → ChatRoom ℕ
room n = record { id = 1; chat_room_serial_no = 7; chat_room_id = 0; member_count = n }

abbrev db : Memory
db = record { rows = member 1 3 ∷ []; room = room 1 }

abbrev db_after : Memory
db_after = record { rows = member 1 3 ∷ member 2 5 ∷ []; room = room 2 }

abbrev payload : ℕ → Option (Payload ℕ)
payload b = some (record { vc_chat_room_serial_no = none; data' = some b })

abbrev row : JoinRow ℕ ℕ ℕ
row = record {
  vc_chat_room_serial_no = 7;
  vc_wx_user_serial_no = 5;
  vc_wx_id = 0;
  vc_base64_nick_name = 0;
  vc_head_images = 0;
  n_join_chat_room_type = 0;
  vc_father_wx_user_serial_no = 0;
  dt_create_date = 0;
}

abbrev rows : ℕ → Option (List (JoinRow ℕ ℕ ℕ))
rows d = some (row ∷ [])

abbrev never : ℕ → Bool
never t = false

abbrev same : ℕ → ℕ
same t = t

abbrev link : ℕ → Option ℕ
link r = none

abbrev welcome : ℕ → ℕ × ℕ
welcome r = (6, 60)

join_run :
    sync_member_join_callback memory ℕ_discrete 0 0 0 same 2001 never never same ◌+◌ link ◌+◌ 100
      no_table same welcome 60 payload rows 0 db
    ≡ (db_after, none)
unfolding sync_member_join_callback with_data with_list each and_then call join_row save_join
    send_welcome joins ensure new_member recount recounted apply_chat_room_member_count count_found
    apply_member_count send_chat_room_member_text_message send_content store_message save_created
    finish new_message content_of link_of no_table memory find_member occurrences alone save_row
    is_of active_in active_count replace_member replace_room ℕ_discrete dec_lt
join_run = refl

rows_are_given :
    (list : List (JoinRow ℕ ℕ ℕ))
    → rows_of payload rows 0 ≡ some list
    → (v : JoinRow ℕ ℕ ℕ) → Among v list
    → (v.vc_chat_room_serial_no ≢ Tables.empty memory)
      × (v.vc_wx_user_serial_no ≢ Tables.empty memory)
unfolding memory rows_of zhiya.Uchat.Members.Rows.rows_in
rows_are_given list e v m = elim (subst (Among v) (sym (some-eq-some e)) m) [
  | inl q ↦ (
    λ z. omega (arith, ap JoinRow.vc_chat_room_serial_no q, z),
    λ z. omega (arith, ap JoinRow.vc_wx_user_serial_no q, z),
  )
  | inr q ↦ absurd q
]

sync_member_join_callback-Active_example :
    (list : List (JoinRow ℕ ℕ ℕ)) × (rows_of payload rows 0 ≡ some list)
    × ((v : JoinRow ℕ ℕ ℕ)
        → Among v list
        → Active memory Memory.rows rooms_in ℕ_discrete ◌+◌ memory-IsLawful v.vc_chat_room_serial_no
            v.vc_wx_user_serial_no db_after)
    × ((place other : ℕ)
        → Active memory Memory.rows rooms_in ℕ_discrete ◌+◌ memory-IsLawful place other db
        → Active memory Memory.rows rooms_in ℕ_discrete ◌+◌ memory-IsLawful place other db_after)
sync_member_join_callback-Active_example =
    sync_member_join_callback-Active memory Memory.rows rooms_in ℕ_discrete ◌+◌ memory-IsLawful
      memory-CountWorks 0 0 0 same 2001 never never same ◌+◌ link ◌+◌ 100 no_table same welcome 60
      no_table-LeavesTables payload rows 0 db db_after rows_are_given join_run
