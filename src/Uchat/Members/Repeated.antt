-- ===== src/Uchat/Members/Repeated.antt =====
-- uchat/sync.go: SyncMemberQuitCallback, its effect, its repetition and the counts behind it.
use mathlib.Core.Path.{subst}
use zhiya.Prelude.{
  ◌≡◌, ◌⊎◌, inl, inr, sym, ap, ◌∙◌, Option, none, some, List, [], ◌∷◌, map, some-eq-some,
}
use zhiya.Uchat.Tables.{ChatRoomMember, ChatRoom, Tables, IsLawful, CountWorks, quits, change_where}
use zhiya.Uchat.Members.{
  Payload, QuitRow, each, recounted, recount, quit_row, sync_member_quit_callback,
}
use zhiya.Uchat.Members.Rows.{and_then-none, call-none, rows_of, with_data-none}
use zhiya.Uchat.Members.Counts.{
  IsCounted, IsCounted-update_members, members-recounted, IsCounted-recounted,
}
use zhiya.Uchat.Members.Quit.{after_quit, map-after_quit, map-after_quit_nil, map-after_quit_same}

-- Some entry of the list names the chat room.
abbrev pub NamesRoom : {Text Time : Type 0} → Text → List (QuitRow Text Time) → Type 0
NamesRoom room [] = ⊥
NamesRoom room (v ∷ list) = (room ≡ v.vc_chat_room_serial_no) ⊎ NamesRoom room list

module _ {Text Time Int Db : Type 0} (T : Tables Text Time Int Db)
    (members : Db → List (ChatRoomMember Text Time Int)) (rooms : Db → List (ChatRoom Text))
    (dec : Discrete Text) (plus : Int → Int → Int) (L : IsLawful T members rooms dec plus)
    (works : CountWorks T) where
  quit_row-none :
      (v : QuitRow Text Time) (db db' : Db)
      → quit_row T v db ≡ (db', none)
      → (m : Db) × (T.update_members 0 v.vc_chat_room_serial_no v.vc_wx_user_serial_no
            (quits v.dt_create_date)
            db
          ≡ some m)
        × (recounted T v.vc_chat_room_serial_no m ≡ db')
  unfolding quit_row recount
  quit_row-none v db db' h = let (m, e, f) = and_then-none _ _ db' h in (m, call-none _ db m e, cc)

  members-quit_row :
      (v : QuitRow Text Time) (db db' : Db)
      → quit_row T v db ≡ (db', none)
      → members db'
        ≡ map
            (change_where dec plus 0 v.vc_chat_room_serial_no v.vc_wx_user_serial_no
              (quits v.dt_create_date))
            (members db)
  members-quit_row v db db' h =
      let (m, e, f) = quit_row-none v db db' h in
      ap members (sym f)
      ∙ members-recounted T members rooms dec plus L works v.vc_chat_room_serial_no m
      ∙ L.update_members-members 0 v.vc_chat_room_serial_no v.vc_wx_user_serial_no
          (quits v.dt_create_date) db m e

  members-each :
      (list : List (QuitRow Text Time)) (db db' : Db)
      → each (quit_row T) list db ≡ (db', none)
      → members db' ≡ map (after_quit dec list) (members db)
  unfolding each
  members-each [] db db' h =
      let e : db ≡ db' = cc in ap members (sym e) ∙ map-after_quit_nil dec (members db)
  members-each (v ∷ list) db db' h =
      let (m, e, f) = and_then-none _ _ db' h in
      members-each list m db' f
      ∙ ap (map (after_quit dec list)) (members-quit_row v db m e)
      ∙ map-after_quit dec plus v list (members db)

  IsCounted-quit_row :
      (v : QuitRow Text Time) (other : Text) (db db' : Db)
      → quit_row T v db ≡ (db', none)
      → ((other ≡ v.vc_chat_room_serial_no) ⊎ IsCounted T members rooms dec other db)
      → IsCounted T members rooms dec other db'
  IsCounted-quit_row v other db db' h (inl e) =
      let (m, u, f) = quit_row-none v db db' h in
      subst (IsCounted T members rooms dec other) f (
        IsCounted-recounted T members rooms dec plus L works v.vc_chat_room_serial_no other m
          (inl e))
  IsCounted-quit_row v other db db' h (inr w) = elim (dec other v.vc_chat_room_serial_no) [
    | yes e ↦
        let (m, u, f) = quit_row-none v db db' h in
        subst (IsCounted T members rooms dec other) f (
          IsCounted-recounted T members rooms dec plus L works v.vc_chat_room_serial_no other m
            (inl e))
    | no n ↦
        let (m, u, f) = quit_row-none v db db' h in
        subst (IsCounted T members rooms dec other) f (
          IsCounted-recounted T members rooms dec plus L works v.vc_chat_room_serial_no other m (
            inr (
              IsCounted-update_members T members rooms dec plus L 0 v.vc_chat_room_serial_no
                v.vc_wx_user_serial_no other (quits v.dt_create_date) db m u n w)))
  ]

  IsCounted-each :
      (list : List (QuitRow Text Time)) (other : Text) (db db' : Db)
      → each (quit_row T) list db ≡ (db', none)
      → (NamesRoom other list ⊎ IsCounted T members rooms dec other db)
      → IsCounted T members rooms dec other db'
  unfolding each
  IsCounted-each [] other db db' h (inl n) = absurd n
  IsCounted-each [] other db db' h (inr w) =
      let e : db ≡ db' = cc in subst (IsCounted T members rooms dec other) e w
  IsCounted-each (v ∷ list) other db db' h (inl (inl e)) =
      let (m, q, f) = and_then-none _ _ db' h in
      IsCounted-each list other m db' f (inr (IsCounted-quit_row v other db m q (inl e)))
  IsCounted-each (v ∷ list) other db db' h (inl (inr n)) =
      let (m, q, f) = and_then-none _ _ db' h in IsCounted-each list other m db' f (inl n)
  IsCounted-each (v ∷ list) other db db' h (inr w) =
      let (m, q, f) = and_then-none _ _ db' h in
      IsCounted-each list other m db' f (inr (IsCounted-quit_row v other db m q (inr w)))

  module _ {Bytes : Type 0} (decode : Bytes → Option (Payload Text))
      (decode_list : Text → Option (List (QuitRow Text Time))) where
    -- A callback for members that quit which returns no error has read a list, has set the quit
    -- date and "not active" of the members that it names, to the date of the last entry for each,
    -- has changed no other member, and stores with every chat room that it names the number of its
    -- active members. This needs that the calls of the count do not fail.
    pub sync_member_quit_callback-members :
        (b : Bytes) (db db' : Db)
        → sync_member_quit_callback T decode decode_list b db ≡ (db', none)
        → (list : List (QuitRow Text Time)) × (rows_of decode decode_list b ≡ some list)
          × (members db' ≡ map (after_quit dec list) (members db))
          × ((room : Text) → NamesRoom room list → IsCounted T members rooms dec room db')
    unfolding sync_member_quit_callback
    sync_member_quit_callback-members b db db' h =
        let (list, e, f) = with_data-none decode decode_list b (each (quit_row T)) db db' h in
        (list, e, members-each list db db' f, λ room n. IsCounted-each list room db db' f (inl n))

    -- The callback for members that quit may be called again: where both calls return no error, the
    -- second one leaves the members as the first one left them. This needs that the calls of the
    -- count do not fail.
    pub sync_member_quit_callback-sync_member_quit_callback :
        (b : Bytes) (db db' db'' : Db)
        → sync_member_quit_callback T decode decode_list b db ≡ (db', none)
        → sync_member_quit_callback T decode decode_list b db' ≡ (db'', none)
        → members db'' ≡ members db'
    sync_member_quit_callback-sync_member_quit_callback b db db' db'' h k =
        let (l, e, f, c) = sync_member_quit_callback-members b db db' h in
        let (l', e', f', c') = sync_member_quit_callback-members b db' db'' k in
        let same : l' ≡ l = some-eq-some (sym e' ∙ e) in
        f'
        ∙ ap (λ x. map (after_quit dec x) (members db')) same
        ∙ ap (map (after_quit dec l)) f
        ∙ map-after_quit_same dec l (members db)
        ∙ sym f
