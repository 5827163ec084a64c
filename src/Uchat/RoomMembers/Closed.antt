-- ===== src/Uchat/RoomMembers/Closed.antt =====
-- uchat/callback.go: the members that the loop at the end makes inactive.
use mathlib.Core.Logic.{if_pos, if_neg}
use mathlib.Core.Path.{subst}
use zhiya.Prelude.{
  ◌≡◌, ◌≢◌, inl, inr, refl, sym, ap, ◌∙◌, Bool, true, false, ◌&&◌, ◌||◌, none, List, [], ◌∷◌, map,
  arith, ◌==◌, if◌then◌else◌, Bool-cases,
}
use zhiya.Uchat.Tables.{
  ChatRoomMember, ChatRoom, sets_active, Tables, IsLawful, Among, is_of, active_in, change,
  change_where,
}
use zhiya.Uchat.Members.Rows.{and_then-none, call-none}
use zhiya.Uchat.RoomMembers.{in_string_slice, unactive, close_rows}
use zhiya.Uchat.RoomMembers.Active.{Among-map, Among-map_inv, IsActive}

module _ {Text : Type 0} (dec : Discrete Text) where
  pub in_string_slice-Among :
      (l : List Text) (s : Text) → in_string_slice dec l s ≡ true → Among s l
  unfolding in_string_slice
  in_string_slice-Among [] s h = absurd (cc)
  in_string_slice-Among (x ∷ l) s h = elim (dec x s) [
    | yes e ↦ inl (sym e)
    | no n ↦ inr (in_string_slice-Among l s (sym (if_neg (dec x s) n _ _) ∙ h))
  ]

  pub Among-in_string_slice :
      (l : List Text) (s : Text) → Among s l → in_string_slice dec l s ≡ true
  unfolding in_string_slice
  Among-in_string_slice [] s h = absurd h
  Among-in_string_slice (x ∷ l) s (inl e) = if_pos (dec x s) (sym e) _ _
  Among-in_string_slice (x ∷ l) s (inr h) = elim (dec x s) [
    | yes e ↦ if_pos (dec x s) e _ _
    | no n ↦ if_neg (dec x s) n _ _ ∙ Among-in_string_slice l s h
  ]

module _ {Text Time Int : Type 0} (dec : Discrete Text) (plus : Int → Int → Int) where
  -- The change for a row that is made inactive.
  abbrev closes :
      ChatRoomMember Text Time Int → ChatRoomMember Text Time Int → ChatRoomMember Text Time Int
  closes m r =
      change_where dec plus m.id m.chat_room_serial_no m.wx_user_serial_no (sets_active false) r

  inactive :
      (room : Text) (m : ChatRoomMember Text Time Int)
      → active_in dec room (record m { is_active = false }) ≡ false
  unfolding active_in
  inactive room m = elim (dec m.chat_room_serial_no room) [
    | yes e ↦ if_pos (dec m.chat_room_serial_no room) e _ _
    | no n ↦ if_neg (dec m.chat_room_serial_no room) n _ _
  ]

  is_of_self :
      (m : ChatRoomMember Text Time Int)
      → is_of dec m.chat_room_serial_no m.wx_user_serial_no m ≡ true
  unfolding is_of
  is_of_self m =
      if_pos (dec m.chat_room_serial_no m.chat_room_serial_no) refl _ _
      ∙ if_pos (dec m.wx_user_serial_no m.wx_user_serial_no) refl _ _

  is_of-other :
      (room user : Text) (m : ChatRoomMember Text Time Int)
      → m.wx_user_serial_no ≢ user
      → is_of dec room user m ≡ false
  unfolding is_of
  is_of-other room user m n = elim (dec m.chat_room_serial_no room) [
    | yes e ↦
        if_pos (dec m.chat_room_serial_no room) e _ _ ∙ if_neg (dec m.wx_user_serial_no user) n _ _
    | no k ↦ if_neg (dec m.chat_room_serial_no room) k _ _
  ]

  closes-eq :
      (m r : ChatRoomMember Text Time Int) (b : Bool)
      → (((m.id == 0) || (m.id == r.id)) && is_of dec m.chat_room_serial_no m.wx_user_serial_no r)
        ≡ b
      → closes m r ≡ (if b then record r { is_active = false } else r)
  unfolding change_where change
  closes-eq m r b e = rw e refl

  active-closes :
      (room : Text) (m r : ChatRoomMember Text Time Int)
      → active_in dec room (closes m r) ≡ true
      → closes m r ≡ r
  active-closes room m r h =
      elim (Bool-cases (
        ((m.id == 0) || (m.id == r.id)) && is_of dec m.chat_room_serial_no m.wx_user_serial_no r)) [
          | inl e ↦
              let f : false ≡ true =
                sym (ap (active_in dec room) (closes-eq m r true e) ∙ inactive room r) ∙ h in
              cc
          | inr e ↦ closes-eq m r false e
        ]

  closes-other :
      (m r : ChatRoomMember Text Time Int)
      → r.wx_user_serial_no ≢ m.wx_user_serial_no
      → closes m r ≡ r
  closes-other m r n =
      let e : is_of dec m.chat_room_serial_no m.wx_user_serial_no r ≡ false =
        is_of-other m.chat_room_serial_no m.wx_user_serial_no r n in
      closes-eq m r false (ground (arith, e))

  closes_self :
      (room : Text) (m : ChatRoomMember Text Time Int) → active_in dec room (closes m m) ≡ false
  closes_self room m =
      let e : is_of dec m.chat_room_serial_no m.wx_user_serial_no m ≡ true = is_of_self m in
      ap (active_in dec room) (closes-eq m m true (ground (arith, e))) ∙ inactive room m

module _ {Text Time Int Db : Type 0} (T : Tables Text Time Int Db)
    (members : Db → List (ChatRoomMember Text Time Int)) (rooms : Db → List (ChatRoom Text))
    (dec : Discrete Text) (plus : Int → Int → Int) (L : IsLawful T members rooms dec plus)
    (room : Text) where
  -- A row that is active after the call was so before, and is none that the call names.
  unactive-Among :
      (m : ChatRoomMember Text Time Int) (db db' : Db) (r : ChatRoomMember Text Time Int)
      → unactive T dec m db ≡ (db', none)
      → Among r (members db')
      → active_in dec room r ≡ true
      → Among r (members db) × (r ≢ m)
  unfolding unactive
  unactive-Among m db db' r h a b =
      let (y, k, e) = Among-map_inv (closes dec plus m) r (members db) (
        subst (Among r)
          (L.update_members-members m.id m.chat_room_serial_no m.wx_user_serial_no
            (sets_active false) db db' (call-none _ db db' h))
          a) in
      let s : closes dec plus m y ≡ y =
        active-closes dec plus room m y (ap (active_in dec room) (sym e) ∙ b) in
      (
        subst (λ t. Among t (members db)) (sym (e ∙ s)) k,
        λ q.
            let f : false ≡ true =
              sym (closes_self dec plus room m)
              ∙ ap (active_in dec room) (ap (closes dec plus m) (sym q ∙ e ∙ s) ∙ sym e)
              ∙ b in
            cc,
      )

  unactive-IsActive :
      (m : ChatRoomMember Text Time Int) (db db' : Db) (user : Text)
      → unactive T dec m db ≡ (db', none)
      → user ≢ m.wx_user_serial_no
      → IsActive T members rooms dec plus L room user db
      → IsActive T members rooms dec plus L room user db'
  unfolding unactive
  unactive-IsActive m db db' user h n (r, a, b, u) = (
    r,
    subst (Among r)
        (sym (
          L.update_members-members m.id m.chat_room_serial_no m.wx_user_serial_no
            (sets_active false) db db' (call-none _ db db' h)))
        (subst (λ t. Among t (map (closes dec plus m) (members db)))
          (closes-other dec plus m r (λ q. n (sym u ∙ q)))
          (Among-map (closes dec plus m) r (members db) a)),
    b,
    u,
  )

  pub close_rows-Among :
      (serials : List Text) (ms : List (ChatRoomMember Text Time Int)) (db db' : Db)
      (r : ChatRoomMember Text Time Int)
      → close_rows T dec serials ms db ≡ (db', none)
      → Among r (members db')
      → active_in dec room r ≡ true
      → Among r (members db) × (Among r ms → in_string_slice dec serials r.wx_user_serial_no ≡ true)
  unfolding close_rows
  close_rows-Among serials [] db db' r h a b =
      let e : db ≡ db' = cc in (subst (λ d. Among r (members d)) (sym e) a, λ n. absurd n)
  close_rows-Among serials (m ∷ ms) db db' r h a b =
      elim (Bool-cases (in_string_slice dec serials m.wx_user_serial_no)) [
        | inl e ↦
            let (d, f, g) = and_then-none _ _ db' h in
            let (k, w) = close_rows-Among serials ms d db' r g a b in
            let q : db ≡ d = ground (arith, e, f) in
            (
              subst (λ d. Among r (members d)) (sym q) k,
              λ o. elim o [
                | inl p ↦
                    ap
                      (λ (y : ChatRoomMember Text Time Int).
                        in_string_slice dec serials y.wx_user_serial_no)
                      p
                    ∙ e
                | inr p ↦ w p
              ],
            )
        | inr e ↦
            let (d, f, g) = and_then-none _ _ db' h in
            let (k, w) = close_rows-Among serials ms d db' r g a b in
            let u : unactive T dec m db ≡ (d, none) = sym (rw e refl) ∙ f in
            let (i, n) = unactive-Among m db d r u k b in
            (i, λ o. elim o [ inl p ↦ absurd (n p) | inr p ↦ w p ])
      ]

  pub close_rows-IsActive :
      (serials : List Text) (ms : List (ChatRoomMember Text Time Int)) (db db' : Db) (user : Text)
      → close_rows T dec serials ms db ≡ (db', none)
      → in_string_slice dec serials user ≡ true
      → IsActive T members rooms dec plus L room user db
      → IsActive T members rooms dec plus L room user db'
  unfolding close_rows
  close_rows-IsActive serials [] db db' user h s a =
      let e : db ≡ db' = cc in subst (IsActive T members rooms dec plus L room user) e a
  close_rows-IsActive serials (m ∷ ms) db db' user h s a =
      elim (Bool-cases (in_string_slice dec serials m.wx_user_serial_no)) [
        | inl e ↦
            let (d, f, g) = and_then-none _ _ db' h in
            let q : db ≡ d = ground (arith, e, f) in
            close_rows-IsActive serials ms d db' user g s
              (subst (IsActive T members rooms dec plus L room user) q a)
        | inr e ↦
            let (d, f, g) = and_then-none _ _ db' h in
            let u : unactive T dec m db ≡ (d, none) = sym (rw e refl) ∙ f in
            let differ : user ≢ m.wx_user_serial_no =
              λ p. ground (arith, e, ap (in_string_slice dec serials) p, s) in
            close_rows-IsActive serials ms d db' user g s (unactive-IsActive m db d user u differ a)
      ]
