-- ===== src/Cmd/Shell/Examples.antt =====
-- cmd/uchat.go: the theorem at a delivery. The world counts the callbacks' calls, and
-- every callback fails for the body 0.
use zhiya.Prelude.{ℕ, ◌+◌, ◌≡◌, refl, Bool, Option, not, some, [], ◌∷◌, ◌==◌}
use zhiya.Cmd.Shell.{
  Callbacks, Delivery, ack, ConsumerShell, chat_room_create, handle, consumer_of, process_error,
  report, failed,
}
use zhiya.Cmd.Shell.Acknowledged.{IsSettled, handle-IsSettled}

abbrev call : ℕ → ℕ → Option (ℕ × Bool)
call b world = some (world + 1, not (b == 0))

abbrev calls : Callbacks ℕ ℕ ℕ
calls = record {
  sync_chat_room_members_callback = call;
  sync_robot_chat_rooms_callback = call;
  sync_member_message_sum_callback = call;
  sync_chat_room_create_callback = call;
  sync_member_quit_callback = call;
  sync_member_join_callback = call;
  decode = some;
  send_message = call;
  sync_chat_message_callback = call;
  sync_chat_keyword_callback = call;
  sync_chat_over_callback = call;
  sync_chat_qr_code_callback = call;
  sync_robot_friend_add_callback = call;
  sync_robot_chat_join_callback = call;
}

abbrev delivery : Delivery ℕ
delivery = record { tag = 1; body = 0 }

abbrev start : ConsumerShell ℕ
start = record { world = 0; settled = []; log = [] }

abbrev end : ConsumerShell ℕ
end = record { world = 1; settled = ack 1 ∷ []; log = process_error 1 ∷ [] }

handle_run : handle calls chat_room_create delivery start ≡ some end
unfolding handle report failed
handle_run = refl

handle-IsSettled_example : IsSettled delivery start end
handle-IsSettled_example = handle-IsSettled calls chat_room_create delivery start end handle_run

consumer_of_create : consumer_of "uchat.chat.create" ≡ some (chat_room_create, 20)
unfolding consumer_of
consumer_of_create = refl
