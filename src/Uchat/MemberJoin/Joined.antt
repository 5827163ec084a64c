-- ===== src/Uchat/MemberJoin/Joined.antt =====
-- uchat/sync.go: who is active after SyncMemberJoinCallback.
use mathlib.Core.Logic.{if_pos, if_neg}
use mathlib.Core.Path.{subst}
use zhiya.Prelude.{◌≡◌, ◌≢◌, inl, refl, sym, ap, ◌∙◌, true, false, some, List, map, ℕ_discrete}
use zhiya.Uchat.Tables.{
  ChatRoomMember, ChatRoom, Tables, IsLawful, Among, active_in, replace_member,
}
use zhiya.Uchat.RoomMembers.Active.{
  Among-map, Among-append_left, Among-append_right, replace_member-eq, replace_member-ne, IsActive,
}

module _ {Text Time Int Db : Type 0} (T : Tables Text Time Int Db)
    (members : Db → List (ChatRoomMember Text Time Int)) (rooms : Db → List (ChatRoom Text))
    (dec : Discrete Text) (plus : Int → Int → Int) (L : IsLawful T members rooms dec plus) where
  -- Some row has the user active in the chat room.
  abbrev pub Active : Text → Text → Db → Type 0
  Active room user db = IsActive T members rooms dec plus L room user db

  active-room :
      (room : Text) (m : ChatRoomMember Text Time Int)
      → active_in dec room m ≡ true
      → m.chat_room_serial_no ≡ room
  unfolding active_in
  active-room room m h = elim (dec m.chat_room_serial_no room) [
    | yes e ↦ e
    | no n ↦ let f : false ≡ true = sym (if_neg (dec m.chat_room_serial_no room) n _ _) ∙ h in cc
  ]

  active-true :
      (room : Text) (m : ChatRoomMember Text Time Int)
      → m.chat_room_serial_no ≡ room
      → m.is_active ≡ true
      → active_in dec room m ≡ true
  unfolding active_in
  active-true room m e a = if_pos (dec m.chat_room_serial_no room) e _ _ ∙ a

  -- A saved member is active, and whoever was active in any chat room still is.
  pub record Joins (room user : Text) (db db' : Db) : Type 0 where
    pub joined : Active room user db'
    pub still : (place other : Text) → Active place other db → Active place other db'

  pub Joins-new :
      (m : ChatRoomMember Text Time Int) (db db' : Db)
      → T.save_member m db ≡ some db'
      → m.id ≡ 0
      → m.is_active ≡ true
      → Joins m.chat_room_serial_no m.wx_user_serial_no db db'
  Joins-new m db db' s z a =
      let (n, e) = L.save_member-new m db db' s z in
      record {
        joined = (
          record m { id = n },
          subst (Among (record m { id = n })) (sym e)
              (Among-append_right _ (members db) _ (inl refl)),
          active-true m.chat_room_serial_no (record m { id = n }) refl a,
          refl,
        );
        still = λ place other h.
            let (r, k, b, u) = h in
            (r, subst (Among r) (sym e) (Among-append_left r (members db) _ k), b, u);
      }

  pub Joins-old :
      (x m : ChatRoomMember Text Time Int) (db db' : Db)
      → m.chat_room_serial_no ≢ T.empty
      → m.wx_user_serial_no ≢ T.empty
      → T.first_member m.chat_room_serial_no m.wx_user_serial_no db ≡ some (some x)
      → T.save_member m db ≡ some db'
      → m.id ≡ x.id
      → m.is_active ≡ true
      → Joins m.chat_room_serial_no m.wx_user_serial_no db db'
  Joins-old x m db db' g gu f s i a =
      let (k, n, q, w) =
        L.first_member-some m.chat_room_serial_no m.wx_user_serial_no db x g gu f in
      let e : members db' ≡ map (replace_member m) (members db) =
        L.save_member-old m db db' s (λ z. n (sym i ∙ z)) in
      let here : Among m (members db') = subst (Among m) (sym e) (
        subst (λ t. Among t (map (replace_member m) (members db))) (replace_member-eq m x (sym i))
          (Among-map (replace_member m) x (members db) k)) in
      record {
        joined = (m, here, active-true m.chat_room_serial_no m refl a, refl);
        still = λ place other h.
            let (r, j, b, v) = h in
            elim (ℕ_discrete r.id m.id) [
              | yes p ↦
                  let same : r ≡ x =
                    L.first_member-unique m.chat_room_serial_no m.wx_user_serial_no db x r f j
                      (p ∙ i) in
                  (
                    m,
                    here,
                    active-true place m
                        (sym q ∙ active-room place x (ap (active_in dec place) (sym same) ∙ b)) a,
                    sym w
                        ∙ ap (λ (y : ChatRoomMember Text Time Int). y.wx_user_serial_no) (sym same)
                        ∙ v,
                  )
              | no p ↦ (
                r,
                subst (λ t. Among t (members db')) (replace_member-ne m r p)
                    (subst (Among (replace_member m r)) (sym e)
                      (Among-map (replace_member m) r (members db) j)),
                b,
                v,
              )
            ];
      }

  -- The members alone decide.
  pub Active-eq :
      (room user : Text) (db db' : Db)
      → members db' ≡ members db
      → Active room user db
      → Active room user db'
  Active-eq room user db db' e h = let (r, k, b, u) = h in (r, subst (Among r) (sym e) k, b, u)
