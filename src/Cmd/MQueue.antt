-- ===== src/Cmd/MQueue.antt =====
-- cmd/mqueue.go: one round of the loop that publishes the messages that wait in the database.
-- Texts and their functions are parameters: `split` is strings.Split by a comma, `trim` is
-- strings.TrimSpace, `replace` is strings.Replace of all occurrences, and `trim_slash` is
-- strings.TrimRight of slashes. `room_of` is FindRobotChatRoomByChatRoom.
pub mod Published
mod Examples
use mathlib.Core.Logic.{ite}
use zhiya.Prelude.{
  ℕ, Bool, true, false, ◌||◌, Option, none, some, List, [], ◌∷◌, ◌++◌, ◌==◌, if◌then◌else◌,
}
use zhiya.Utils.FakeId.{fake_id_encode}

pub record MessageQueue (Text : Type 0) : Type 0 where
  pub queue_id : Text
  pub chat_room_serial_no_list : Text
  pub msg_type : Text
  pub is_hit : Bool
  pub weixin_serial_no : Text
  pub msg_content : Text
  pub title : Text
  pub description : Text
  pub href : Text
  pub voice_time : ℕ
  pub product_id : Text
  pub send_status : ℕ

-- The fields of models.RobotChatRoom that a message needs.
pub record RobotChatRoom (Text : Type 0) : Type 0 where
  pub robot_serial_no : Text
  pub my_id : Text
  pub sub_id : Text

-- The object that is published for one chat room.
pub record Publication (Text : Type 0) : Type 0 where
  pub vc_rela_serial_no : Text
  pub vc_chat_room_serial_no : Text
  pub vc_robot_serial_no : Text
  pub n_is_hit : Bool
  pub vc_weixin_serial_no : Text
  pub n_msg_type : Text
  pub msg_content : Text
  pub vc_title : Text
  pub vc_desc : Text
  pub vc_href : Text
  pub n_voice_time : ℕ

-- `saved` are the rows that were stored, and `answers` tells how the broker answers the next
-- publishings: it takes those behind the list.
pub record Round (Text : Type 0) : Type 0 where
  pub saved : List (MessageQueue Text)
  pub published : List (Publication Text)
  pub answers : List Bool

-- Whether the loop goes on, or breaks and connects again.
pub data Next : Type 0 where
  continues : Next
  breaks : Next

module _ {Text : Type 0} where
  -- channel.Publish.
  unfoldable pub publish : Publication Text → Round Text → Round Text × Next
  publish p s = elim s.answers [
    | [] ↦ (record s { published = s.published ++ p ∷ [] }, continues)
    | true ∷ rest ↦ (record s { published = s.published ++ p ∷ []; answers = rest }, continues)
    | false ∷ rest ↦ (record s { answers = rest }, breaks)
  ]

  unfoldable pub and_next : Round Text × Next → (Round Text → Round Text × Next) → Round Text × Next
  and_next (s, continues) f = f s
  and_next (s, breaks) f = (s, breaks)

-- The parameters of a product's link are fake ids, here as texts.
module _ {Text : Type 0} (dec : Discrete Text) (blank : Text) (to_int64 : Text → ℕ)
    (text_of : List ℕ → Text) (replace : Text → Text → Text → Text) (trim_slash : Text → Text)
    (product_key my_key sub_key : Text) where
  unfoldable pub fake : Text → Text
  fake t = text_of (fake_id_encode (to_int64 t))

  unfoldable pub vc_href_of : MessageQueue Text → RobotChatRoom Text → Text
  vc_href_of msg room = ite (dec msg.product_id blank) msg.href (
      trim_slash (
        replace
          (replace (replace msg.href product_key (fake msg.product_id)) my_key (fake room.my_id))
          sub_key (fake room.sub_id)))

  unfoldable pub publication_of : MessageQueue Text → Text → RobotChatRoom Text → Publication Text
  publication_of msg chat_room room = record {
    vc_rela_serial_no = msg.queue_id;
    vc_chat_room_serial_no = chat_room;
    vc_robot_serial_no = room.robot_serial_no;
    n_is_hit = msg.is_hit;
    vc_weixin_serial_no = msg.weixin_serial_no;
    n_msg_type = msg.msg_type;
    msg_content = msg.msg_content;
    vc_title = msg.title;
    vc_desc = msg.description;
    vc_href = vc_href_of msg room;
    n_voice_time = msg.voice_time;
  }

  -- `can_save` tells whether the row can be stored.
  module _ (split : Text → List Text) (trim : Text → Text)
      (room_of : Text → Option (RobotChatRoom Text)) (can_save : MessageQueue Text → Bool) where
    unfoldable pub publish_found :
        MessageQueue Text → Text → Option (RobotChatRoom Text) → Round Text → Round Text × Next
    publish_found msg chat_room none s = (s, continues)
    publish_found msg chat_room (some room) s = publish (publication_of msg chat_room room) s

    -- The body of the loop over the chat rooms, on the trimmed text.
    unfoldable pub publish_room : MessageQueue Text → Text → Round Text → Round Text × Next
    publish_room msg chat_room s =
        ite (dec chat_room blank) (s, continues) (publish_found msg chat_room (room_of chat_room) s)

    unfoldable pub publish_rooms : MessageQueue Text → List Text → Round Text → Round Text × Next
    publish_rooms msg [] s = (s, continues)
    publish_rooms msg (chat_room ∷ rooms) s =
        and_next (publish_room msg (trim chat_room) s) (publish_rooms msg rooms)

    -- The body of the loop over the messages: the row is stored as sent, and then published.
    unfoldable pub publish_message : MessageQueue Text → Round Text → Round Text × Next
    publish_message msg s =
        if can_save msg
        then publish_rooms msg (split msg.chat_room_serial_no_list)
            (record s { saved = s.saved ++ record msg { send_status = 1 } ∷ [] })
        else (s, continues)

    -- The loop over the messages that the two queries found.
    unfoldable pub publish_messages : List (MessageQueue Text) → Round Text → Round Text × Next
    publish_messages [] s = (s, continues)
    publish_messages (msg ∷ msgs) s = and_next (publish_message msg s) (publish_messages msgs)
