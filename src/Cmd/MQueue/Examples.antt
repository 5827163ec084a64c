-- ===== src/Cmd/MQueue/Examples.antt =====
-- cmd/mqueue.go: the theorems at a concrete message. Texts are numbers: a list of chat rooms is
-- one of them, and the text 0 is blank.
use zhiya.Prelude.{ℕ, ◌+◌, Bool, true, false, Option, some, List, [], ◌∷◌, ℕ_discrete}
use zhiya.Cmd.MQueue.{MessageQueue, RobotChatRoom, Round, publish_messages}
use zhiya.Cmd.MQueue.Published.{IsPublished, due, publish_messages-IsPublished}

abbrev msg : MessageQueue ℕ
msg = record {
  queue_id = 1;
  chat_room_serial_no_list = 0;
  msg_type = 2001;
  is_hit = true;
  weixin_serial_no = 0;
  msg_content = 2;
  title = 3;
  description = 4;
  href = 5;
  voice_time = 0;
  product_id = 0;
  send_status = 0;
}

abbrev rooms : ℕ → List ℕ
rooms t = 7 ∷ 8 ∷ []

abbrev robot : RobotChatRoom ℕ
robot = record { robot_serial_no = 11; my_id = 12; sub_id = 13 }

abbrev start : Round ℕ
start = record { saved = []; published = []; answers = false ∷ [] }

abbrev first_of : List ℕ → ℕ
first_of [] = 0
first_of (x ∷ l) = x

abbrev put_in : ℕ → ℕ → ℕ → ℕ
put_in t key value = t + value

abbrev same : ℕ → ℕ
same t = t

abbrev served : ℕ → Option (RobotChatRoom ℕ)
served t = some robot

abbrev stores : MessageQueue ℕ → Bool
stores m = true

publish_messages-IsPublished_example :
    IsPublished start
      (due ℕ_discrete 0 same first_of put_in same 1 2 3 rooms same served stores (msg ∷ []))
      (publish_messages ℕ_discrete 0 same first_of put_in same 1 2 3 rooms same served stores
        (msg ∷ [])
        start)
publish_messages-IsPublished_example =
    publish_messages-IsPublished ℕ_discrete 0 same first_of put_in same 1 2 3 rooms same served
      stores (msg ∷ []) start
