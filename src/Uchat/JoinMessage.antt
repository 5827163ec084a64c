-- ===== src/Uchat/JoinMessage.antt =====
-- uchat/sync.go: the welcome of new members. Texts and their functions, the queries, the short-link
-- service and the clock are parameters; a duration is a number of nanoseconds. A transaction is
-- the database with its changes, and a rollback goes back to the database before it.
pub mod Pending
pub mod OnePending
mod Examples
use mathlib.Core.Logic.{ite}
use zhiya.Prelude.{
  ℕ, ◌+◌, ◌*◌, ◌≡◌, ◌≢◌, ◌⊎◌, Bool, true, false, ◌&&◌, Option, none, some, List, [], ◌∷◌, ◌++◌, map,
  ◌==◌, if◌then◌else◌,
}
use zhiya.Uchat.Tables.{Among}

abbrev pub second : ℕ
second = 1000000000

-- The fields of models.WorkTemplate and models.RobotChatRoom that are read.
pub record Template (Text : Type 0) : Type 0 where
  pub cmd_params : Text
  pub cmd_reply : Text

pub record RobotRoom (Text : Type 0) : Type 0 where
  pub tag_id : Text
  pub my_id : Text

-- The replies of the welcome commands that are open: of a chat room, of a tag and of a supplier.
-- `robot_room` is the last open record of a chat room's robot.
pub record Commands (Text : Type 0) : Type 0 where
  pub chat_room_cmd : Text → Option Text
  pub robot_room : Text → Option (RobotRoom Text)
  pub tag_cmd : Text → Option Text
  pub my_cmd : Text → Option Text

pub record Message (Text : Type 0) : Type 0 where
  pub id : ℕ
  pub queue_id : Text
  pub chat_room_serial_no_list : Text
  pub chat_room_count : ℕ
  pub msg_type : Text
  pub is_hit : Bool
  pub weixin_serial_no : Text
  pub msg_content : Text
  pub send_type : ℕ
  pub send_status : ℕ
  pub send_time : ℕ

pub data Failure : Type 0 where
  no_join_content : Failure
  db_failed : Failure

-- `pending` is the first row of a chat room with the type 10 and the status 0, if there is one, and
-- `none` where the query fails. `create` stores a new row and tells its id.
pub record Messages (Text Db : Type 0) : Type 0 where
  pub pending : Text → Db → Option (Option (Message Text))
  pub create : Message Text → Db → Option (Db × ℕ)
  pub save : Message Text → Db → Option Db
  pub commit : Db → Option Db

module _ {Text : Type 0} (dec : Discrete Text) (blank : Text) where
  module _ (q : Commands Text) (default_welcome : Text) where
    unfoldable pub default_of : Text → Text
    default_of my_id = ite (dec my_id blank) blank default_welcome

    unfoldable pub robot_message : Option (RobotRoom Text) → Text
    robot_message none = blank
    robot_message (some r) = elim (q.tag_cmd r.tag_id) [
      | some reply ↦ reply
      | none ↦ elim (q.my_cmd r.my_id) [ some reply ↦ reply | none ↦ default_of r.my_id ]
    ]

    unfoldable pub fetch_chat_room_member_join_message : Text → Text
    fetch_chat_room_member_join_message room = elim (q.chat_room_cmd room) [
      | some reply ↦ reply
      | none ↦ robot_message (q.robot_room room)
    ]

  -- `decode` reads the parameters, which may have an `interval` in seconds.
  module _ (valid_template : Text → Option (Template Text)) (decode : Text → Option (Option ℕ))
      (trim_space : Text → Text) (default_interval : ℕ) where
    unfoldable pub interval_of : Option (Option ℕ) → ℕ
    interval_of none = default_interval
    interval_of (some none) = default_interval
    interval_of (some (some iter)) = iter * second

    unfoldable pub template_message : Option (Template Text) → Text × ℕ
    template_message none = (blank, default_interval)
    template_message (some t) = (trim_space t.cmd_reply, interval_of (decode t.cmd_params))

    unfoldable pub fetch_chat_room_member_join_message_template : Text → Text × ℕ
    fetch_chat_room_member_join_message_template room = template_message (valid_template room)

-- `at_name` is the mark of the new member's name, and `link_mark` that of the link. `names` and
-- `links` tell whether a text contains them, and `drop_names` replaces the mark by nothing.
-- `coupon_link` is the link of the chat room, or an error, already made short.
module _ {Text : Type 0} (dec : Discrete Text) (blank type_text : Text) (names links : Text → Bool)
    (drop_names : Text → Text) (put_link : Text → Text → Text) (coupon_link : Text → Option Text)
    (comma_join : Text → Text → Text) (now : ℕ) where
  unfoldable pub join_more : Text → Text → Message Text → Message Text
  join_more msg user m =
      if names msg then record m { weixin_serial_no = comma_join m.weixin_serial_no user } else m

  unfoldable pub link_of : Option Text → Text
  link_of none = blank
  link_of (some url) = url

  unfoldable pub content_of : Text → Text → Text
  content_of msg room =
      let content = if names msg then drop_names msg else msg in
      if links msg then put_link content (link_of (coupon_link room)) else content

  unfoldable pub new_message : Text → Text → Text → ℕ → Message Text
  new_message msg room user interval = record {
    id = 0;
    queue_id = blank;
    chat_room_serial_no_list = room;
    chat_room_count = 1;
    msg_type = type_text;
    is_hit = true;
    weixin_serial_no = if names msg then user else blank;
    msg_content = content_of msg room;
    send_type = 10;
    send_status = 0;
    send_time = now + interval;
  }

  module _ {Db : Type 0} (q : Messages Text Db) (hash_id : ℕ → Text) where
    -- The end of the transaction, on the database before it.
    unfoldable pub finish : Db → Option Db → Db × Option Failure
    finish db none = (db, some db_failed)
    finish db (some tx) = elim (q.commit tx) [
      | none ↦ (db, some db_failed)
      | some db' ↦ (db', none)
    ]

    unfoldable pub save_created : Db → Message Text → Option (Db × ℕ) → Db × Option Failure
    save_created db m none = (db, some db_failed)
    save_created db m (some (tx, id)) =
        finish db (q.save (record m { id = id; queue_id = hash_id id }) tx)

    -- Any error of the query is taken for a row that is not there.
    unfoldable pub store_message :
        Text → Text → Text → ℕ → Option (Option (Message Text)) → Db → Db × Option Failure
    store_message msg room user interval (some (some m)) db =
        finish db (q.save (join_more msg user m) db)
    store_message msg room user interval (some none) db =
        save_created db (new_message msg room user interval)
          (q.create (new_message msg room user interval) db)
    store_message msg room user interval none db =
        save_created db (new_message msg room user interval)
          (q.create (new_message msg room user interval) db)

    unfoldable pub send_content : Text → Text → Text × ℕ → Db → Db × Option Failure
    send_content room user (msg, interval) db =
        ite (dec msg blank) (db, some no_join_content)
          (store_message msg room user interval (q.pending room db) db)

    -- `welcome` is the message with its interval of one of the two functions above, as
    -- UseWorkTemplate tells.
    unfoldable pub send_chat_room_member_text_message :
        (Text → Text × ℕ) → ℕ → Text → Text → Text → Db → Db × Option Failure
    send_chat_room_member_text_message welcome default_interval room user msg db =
        send_content room user (ite (dec msg blank) (welcome room) (msg, default_interval)) db
