-- ===== src/Uchat/Members/Quit.antt =====
-- uchat/sync.go: what SyncMemberQuitCallback leaves of the members, and that it may be repeated.
use zhiya.Prelude.{
  ◌≡◌, refl, sym, ap, ap₂, ◌∙◌, Bool, true, false, Option, none, some, List, [], ◌∷◌, map,
  if◌then◌else◌,
}
use zhiya.Uchat.Tables.{ChatRoomMember, quits, is_of, change, change_where}
use zhiya.Uchat.Members.{QuitRow}

unfoldable pub or_else : {Time : Type 0} → Option Time → Bool → Time → Option Time
or_else (some t) b d = some t
or_else none b d = if b then some d else none

or_else-false : {Time : Type 0} (o : Option Time) (d : Time) → or_else o false d ≡ o
unfolding or_else
or_else-false none d = refl
or_else-false (some t) d = refl

module _ {Text Time Int : Type 0} (dec : Discrete Text) where
  -- The date of the last entry for a member.
  unfoldable pub last_quit : List (QuitRow Text Time) → ChatRoomMember Text Time Int → Option Time
  last_quit [] m = none
  last_quit (v ∷ list) m =
      or_else (last_quit list m) (is_of dec v.vc_chat_room_serial_no v.vc_wx_user_serial_no m)
        v.dt_create_date

  unfoldable pub quit_at : Option Time → ChatRoomMember Text Time Int → ChatRoomMember Text Time Int
  quit_at none m = m
  quit_at (some d) m = record m { quit_date = d; is_active = false }

  -- The member as the list of those that quit leaves it.
  unfoldable pub after_quit :
      List (QuitRow Text Time) → ChatRoomMember Text Time Int → ChatRoomMember Text Time Int
  after_quit list m = quit_at (last_quit list m) m

  last_quit-quit_at :
      (list : List (QuitRow Text Time)) (o : Option Time) (m : ChatRoomMember Text Time Int)
      → last_quit list (quit_at o m) ≡ last_quit list m
  unfolding last_quit quit_at is_of
  last_quit-quit_at list none m = refl
  last_quit-quit_at [] (some d) m = refl
  last_quit-quit_at (v ∷ list) (some d) m =
      ap
        (λ o.
          or_else o (is_of dec v.vc_chat_room_serial_no v.vc_wx_user_serial_no m) v.dt_create_date)
        (last_quit-quit_at list (some d) m)

  quit_at-quit_at :
      (o : Option Time) (d : Time) (m : ChatRoomMember Text Time Int)
      → quit_at o (quit_at (some d) m) ≡ quit_at (or_else o true d) m
  unfolding quit_at or_else
  quit_at-quit_at none d m = refl
  quit_at-quit_at (some t) d m = refl

  quit_at_same :
      (o : Option Time) (m : ChatRoomMember Text Time Int) → quit_at o (quit_at o m) ≡ quit_at o m
  unfolding quit_at
  quit_at_same none m = refl
  quit_at_same (some t) m = refl

  after_quit-after_quit :
      (list : List (QuitRow Text Time)) (m : ChatRoomMember Text Time Int)
      → after_quit list (after_quit list m) ≡ after_quit list m
  unfolding after_quit
  after_quit-after_quit list m =
      ap (λ o. quit_at o (quit_at (last_quit list m) m))
        (last_quit-quit_at list (last_quit list m) m)
      ∙ quit_at_same (last_quit list m) m

  module _ (plus : Int → Int → Int) where
    change_where-quits :
        (room user : Text) (d : Time) (m : ChatRoomMember Text Time Int) (b : Bool)
        → is_of dec room user m ≡ b
        → change_where dec plus 0 room user (quits d) m ≡ (if b then quit_at (some d) m else m)
    unfolding change_where change quit_at
    change_where-quits room user d m b e = rw e refl

    after_quit_step :
        (list : List (QuitRow Text Time)) (d : Time) (m : ChatRoomMember Text Time Int) (b : Bool)
        → after_quit list (if b then quit_at (some d) m else m)
          ≡ quit_at (or_else (last_quit list m) b d) m
    unfolding after_quit
    after_quit_step list d m true =
        ap (λ o. quit_at o (quit_at (some d) m)) (last_quit-quit_at list (some d) m)
        ∙ quit_at-quit_at (last_quit list m) d m
    after_quit_step list d m false =
        ap (λ o. quit_at o m) (sym (or_else-false (last_quit list m) d))

    after_quit-cons :
        (v : QuitRow Text Time) (list : List (QuitRow Text Time)) (m : ChatRoomMember Text Time Int)
        → after_quit list (
            change_where dec plus 0 v.vc_chat_room_serial_no v.vc_wx_user_serial_no
              (quits v.dt_create_date)
              m)
          ≡ after_quit (v ∷ list) m
    after_quit-cons v list m =
        ap (after_quit list) (
          change_where-quits v.vc_chat_room_serial_no v.vc_wx_user_serial_no v.dt_create_date m
            (is_of dec v.vc_chat_room_serial_no v.vc_wx_user_serial_no m) refl)
        ∙ after_quit_step list v.dt_create_date m
            (is_of dec v.vc_chat_room_serial_no v.vc_wx_user_serial_no m)
        ∙ unfold after_quit last_quit in refl

    pub map-after_quit :
        (v : QuitRow Text Time) (list : List (QuitRow Text Time))
        (l : List (ChatRoomMember Text Time Int))
        → map (after_quit list) (
            map
              (change_where dec plus 0 v.vc_chat_room_serial_no v.vc_wx_user_serial_no
                (quits v.dt_create_date))
              l)
          ≡ map (after_quit (v ∷ list)) l
    map-after_quit v list [] = refl
    map-after_quit v list (m ∷ l) = ap₂ ◌∷◌ (after_quit-cons v list m) (map-after_quit v list l)

  pub map-after_quit_nil : (l : List (ChatRoomMember Text Time Int)) → l ≡ map (after_quit []) l
  unfolding after_quit last_quit quit_at
  map-after_quit_nil [] = refl
  map-after_quit_nil (m ∷ l) = ap (◌∷◌ m) (map-after_quit_nil l)

  pub map-after_quit_same :
      (list : List (QuitRow Text Time)) (l : List (ChatRoomMember Text Time Int))
      → map (after_quit list) (map (after_quit list) l) ≡ map (after_quit list) l
  map-after_quit_same list [] = refl
  map-after_quit_same list (m ∷ l) =
      ap₂ ◌∷◌ (after_quit-after_quit list m) (map-after_quit_same list l)
