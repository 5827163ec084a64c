-- ===== src/Cmd/Shell.antt =====
-- cmd/uchat.go: the consumers of the chat platform's queues. The callbacks of the package uchat
-- and SendMessage of the client are an interface: each changes the world, and answers `false` for
-- an error, or it panics, which is `none` and ends the program. The queue runs a handler for each
-- delivery in a goroutine of its own; here is what one of them does. `send_message` takes what the JSON decoder makes of the body.
pub mod Acknowledged
mod Examples
use Prim.Native.String.{String}
use text.Mathlib.Text.{◌==◌ as str_eq}
use zhiya.Prelude.{ℕ, Bool, true, false, Option, none, some, List, [], ◌∷◌, ◌++◌, if◌then◌else◌}

pub record Callbacks (Bytes Message World : Type 0) : Type 0 where
  pub sync_chat_room_members_callback : Bytes → World → Option (World × Bool)
  pub sync_robot_chat_rooms_callback : Bytes → World → Option (World × Bool)
  pub sync_member_message_sum_callback : Bytes → World → Option (World × Bool)
  pub sync_chat_room_create_callback : Bytes → World → Option (World × Bool)
  pub sync_member_quit_callback : Bytes → World → Option (World × Bool)
  pub sync_member_join_callback : Bytes → World → Option (World × Bool)
  pub decode : Bytes → Option Message
  pub send_message : Message → World → Option (World × Bool)
  pub sync_chat_message_callback : Bytes → World → Option (World × Bool)
  pub sync_chat_keyword_callback : Bytes → World → Option (World × Bool)
  pub sync_chat_over_callback : Bytes → World → Option (World × Bool)
  pub sync_chat_qr_code_callback : Bytes → World → Option (World × Bool)
  pub sync_robot_friend_add_callback : Bytes → World → Option (World × Bool)
  pub sync_robot_chat_join_callback : Bytes → World → Option (World × Bool)

pub record Delivery (Bytes : Type 0) : Type 0 where
  pub tag : ℕ
  pub body : Bytes

-- What a consumer tells the broker of a delivery: done with, or not, and then whether the broker
-- shall put it back into the queue.
pub data Settlement : Type 0 where
  ack : ℕ → Settlement
  nack : ℕ → Bool → Settlement

pub data Entry : Type 0 where
  process_error : ℕ → Entry
  process_success : ℕ → Entry

pub record ConsumerShell (World : Type 0) : Type 0 where
  pub world : World
  pub settled : List Settlement
  pub log : List Entry

-- The functions that a queue's name can start.
pub data Handler : Type 0 where
  member_list : Handler
  chat_room_list : Handler
  member_message_sum : Handler
  chat_room_create : Handler
  member_quit : Handler
  member_join : Handler
  send_chat_message : Handler
  chat_message : Handler
  chat_keyword : Handler
  chat_over : Handler
  chat_qr_code : Handler
  robot_friend_add : Handler
  robot_chat_join : Handler

-- The switch of the command, with the number of deliveries that may be under way; `none` is
-- `sugar.Fatal`.
unfoldable pub consumer_of : String → Option (Handler × ℕ)
consumer_of queue =
    if str_eq queue "uchat.member.list"
    then some (member_list, 20)
    else if str_eq queue "uchat.robot.chat.list"
    then some (chat_room_list, 20)
    else if str_eq queue "uchat.member.message_sum"
    then some (member_message_sum, 20)
    else if str_eq queue "uchat.chat.create"
    then some (chat_room_create, 20)
    else if str_eq queue "uchat.member.quit"
    then some (member_quit, 20)
    else if str_eq queue "uchat.member.join"
    then some (member_join, 20)
    else if str_eq queue "uchat.mysql.message.queue"
    then some (send_chat_message, 1)
    else if str_eq queue "uchat.chat.message"
    then some (chat_message, 20)
    else if str_eq queue "uchat.chat.keyword"
    then some (chat_keyword, 20)
    else if str_eq queue "uchat.web.unbindrooms"
    then some (chat_over, 20)
    else if str_eq queue "uchat.chat.qrcode"
    then some (chat_qr_code, 20)
    else if str_eq queue "uchat.robot.friend.add"
    then some (robot_friend_add, 20)
    else if str_eq queue "uchat.robot.chat.join"
    then some (robot_chat_join, 20)
    else none

module _ {Bytes World : Type 0} where
  -- `Logger.Error(...)` and `msg.Ack(false)`.
  unfoldable pub failed : Delivery Bytes → World → ConsumerShell World → ConsumerShell World
  failed msg world c = record {
    world = world;
    settled = c.settled ++ ack msg.tag ∷ [];
    log = c.log ++ process_error msg.tag ∷ [];
  }

  unfoldable pub succeeded : Delivery Bytes → World → ConsumerShell World → ConsumerShell World
  succeeded msg world c = record {
    world = world;
    settled = c.settled ++ ack msg.tag ∷ [];
    log = c.log ++ process_success msg.tag ∷ [];
  }

  unfoldable pub report :
      Delivery Bytes → Option (World × Bool) → ConsumerShell World → Option (ConsumerShell World)
  report msg none c = none
  report msg (some (world, ok)) c = some (if ok then succeeded msg world c else failed msg world c)

  module _ {Message : Type 0} (u : Callbacks Bytes Message World) where
    -- The body of SendMessage, and of the function that SendChatMessage gives to the queue. A
    -- success is logged as an error there, with the text of a success.
    unfoldable pub send_message :
        Delivery Bytes → ConsumerShell World → Option (ConsumerShell World)
    send_message msg c = elim (u.decode msg.body) [
      | none ↦ some (failed msg c.world c)
      | some rst ↦ report msg (u.send_message rst c.world) c
    ]

    -- What the handlers do with a delivery.
    unfoldable pub handle :
        Handler → Delivery Bytes → ConsumerShell World → Option (ConsumerShell World)
    handle member_list msg c = report msg (u.sync_chat_room_members_callback msg.body c.world) c
    handle chat_room_list msg c = report msg (u.sync_robot_chat_rooms_callback msg.body c.world) c
    handle member_message_sum msg c =
        report msg (u.sync_member_message_sum_callback msg.body c.world) c
    handle chat_room_create msg c = report msg (u.sync_chat_room_create_callback msg.body c.world) c
    handle member_quit msg c = report msg (u.sync_member_quit_callback msg.body c.world) c
    handle member_join msg c = report msg (u.sync_member_join_callback msg.body c.world) c
    handle send_chat_message msg c = send_message msg c
    handle chat_message msg c = report msg (u.sync_chat_message_callback msg.body c.world) c
    handle chat_keyword msg c = report msg (u.sync_chat_keyword_callback msg.body c.world) c
    handle chat_over msg c = report msg (u.sync_chat_over_callback msg.body c.world) c
    handle chat_qr_code msg c = report msg (u.sync_chat_qr_code_callback msg.body c.world) c
    handle robot_friend_add msg c = report msg (u.sync_robot_friend_add_callback msg.body c.world) c
    handle robot_chat_join msg c = report msg (u.sync_robot_chat_join_callback msg.body c.world) c
