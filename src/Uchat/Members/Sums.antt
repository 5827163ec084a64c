-- ===== src/Uchat/Members/Sums.antt =====
-- uchat/sync.go: what SyncMemberMessageSumCallback adds to the counts of messages.
use mathlib.Core.Logic.{ite}
use zhiya.Prelude.{List, [], ◌∷◌}
use zhiya.Uchat.Tables.{ChatRoomMember, Tables}
use zhiya.Uchat.Members.{SumRow}

module _ {Text Time Int : Type 0} (dec : Discrete Text) (plus : Int → Int → Int) where
  -- The count and the date of a user, after the entries for it.
  unfoldable pub total : Text → List (SumRow Text Time Int) → Int × Time → Int × Time
  total user [] r = r
  total user (v ∷ list) (n, d) =
      total user list
        (ite (dec user v.vc_wx_serial_no) (plus n v.n_msg_count, v.dt_last_msg_date) (n, d))

  unfoldable pub with_total :
      Int × Time → ChatRoomMember Text Time Int → ChatRoomMember Text Time Int
  with_total (n, d) m = record m { msg_count = n; last_msg_date = d }

  -- The members of the chat room with their entries added, and the others as they are.
  unfoldable pub after_sums :
      Text
      → List (SumRow Text Time Int)
      → ChatRoomMember Text Time Int
      → ChatRoomMember Text Time Int
  after_sums room list m =
      ite (dec m.chat_room_serial_no room)
        (with_total (total m.wx_user_serial_no list (m.msg_count, m.last_msg_date)) m) m
