-- ===== src/Uchat/MemberJoin.antt =====
-- uchat/sync.go: SyncMemberJoinCallback. The parameters are those of the member callbacks and of the
-- welcome messages. Of the name in base64 the callback takes what can be decoded, and of the
-- welcome and of the count it does not look at the errors.
pub mod Kept
pub mod Joined
pub mod Everyone
mod Examples
use zhiya.Prelude.{ℕ, Bool, true, false, Option, none, some, List, [], ◌∷◌}
use zhiya.Uchat.Tables.{ChatRoomMember, Tables}
use zhiya.Uchat.Members.{
  Failure, Payload, bad_json, db_failed, and_then, each, call, with_data, recount,
}
use zhiya.Uchat.RoomMembers.{ensure}
use zhiya.Uchat.JoinMessage.{Messages, send_chat_room_member_text_message}

-- The values of an entry, with the number and the date that are read of their texts.
pub record JoinRow (Text Time Int : Type 0) : Type 0 where
  pub vc_chat_room_serial_no : Text
  pub vc_wx_user_serial_no : Text
  pub vc_wx_id : Text
  pub vc_base64_nick_name : Text
  pub vc_head_images : Text
  pub n_join_chat_room_type : Int
  pub vc_father_wx_user_serial_no : Text
  pub dt_create_date : Time

unfoldable pub joins :
    {Text Time Int : Type 0}
    → (Text → Text)
    → JoinRow Text Time Int
    → ChatRoomMember Text Time Int
    → ChatRoomMember Text Time Int
joins base64 v m = record m {
  wx_id = v.vc_wx_id;
  nick_name = base64 v.vc_base64_nick_name;
  base64_nick_name = v.vc_base64_nick_name;
  head_images = v.vc_head_images;
  join_chat_room_type = v.n_join_chat_room_type;
  father_wx_user_serial_no = v.vc_father_wx_user_serial_no;
  is_active = true;
  join_date = v.dt_create_date;
}

module _ {Text Time Int Db : Type 0} (T : Tables Text Time Int Db) (dec : Discrete Text)
    (blank : Text) (no_time : Time) (zero_int : Int) (base64 : Text → Text) (type_text : Text)
    (names links : Text → Bool) (drop_names : Text → Text) (put_link : Text → Text → Text)
    (coupon_link : Text → Option Text) (comma_join : Text → Text → Text) (now : ℕ)
    (Q : Messages Text Db) (hash_id : ℕ → Text) (welcome : Text → Text × ℕ)
    (default_interval : ℕ) where
  -- The welcome of a member, whose error is not looked at.
  unfoldable pub send_welcome : Text → Text → Db → Db
  send_welcome room user db =
      let (db', e) =
        send_chat_room_member_text_message dec blank type_text names links drop_names put_link
          coupon_link comma_join now Q hash_id welcome default_interval room user blank db in
      db'

  unfoldable pub save_join :
      JoinRow Text Time Int → Option (ChatRoomMember Text Time Int) → Db → Db × Option Failure
  save_join v none db = (db, some db_failed)
  save_join v (some m) db = and_then (call (T.save_member (joins base64 v m) db) db) (λ d.
      recount T v.vc_chat_room_serial_no (send_welcome m.chat_room_serial_no m.wx_user_serial_no d))

  -- The body of the loop over the entries.
  unfoldable pub join_row : JoinRow Text Time Int → Db → Db × Option Failure
  join_row v db =
      save_join v
        (ensure T blank no_time zero_int v.vc_chat_room_serial_no v.vc_wx_user_serial_no db) db

  unfoldable pub sync_member_join_callback :
      {Bytes : Type 0}
      → (Bytes → Option (Payload Text))
      → (Text → Option (List (JoinRow Text Time Int)))
      → Bytes
      → Db
      → Db × Option Failure
  sync_member_join_callback decode decode_list b db =
      with_data decode decode_list b (each join_row) db
