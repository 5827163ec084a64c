-- ===== src/Uchat/MemberJoin/Everyone.antt =====
-- uchat/sync.go: SyncMemberJoinCallback makes the members of its list active.
use mathlib.Core.Path.{subst}
use zhiya.Prelude.{
  ℕ, ◌≡◌, ◌≢◌, inl, inr, refl, sym, ap, ap₂, ◌∙◌, Bool, Option, none, some, List, [], ◌∷◌, arith,
}
use zhiya.Uchat.Tables.{ChatRoomMember, ChatRoom, Tables, IsLawful, CountWorks, Among}
use zhiya.Uchat.Members.{Failure, Payload, each, recounted, recount}
use zhiya.Uchat.Members.Rows.{and_then-none, call-none, rows_of, with_data-none}
use zhiya.Uchat.Members.Counts.{members-recounted}
use zhiya.Uchat.RoomMembers.{new_member, ensure}
use zhiya.Uchat.JoinMessage.{Messages}
use zhiya.Uchat.MemberJoin.{
  JoinRow, joins, send_welcome, save_join, join_row, sync_member_join_callback,
}
use zhiya.Uchat.MemberJoin.Kept.{LeavesTables, view-send}
use zhiya.Uchat.MemberJoin.Joined.{Active, Joins, Joins-new, Joins-old, Active-eq}

module _ {Text Time Int Db : Type 0} (T : Tables Text Time Int Db)
    (members : Db → List (ChatRoomMember Text Time Int)) (rooms : Db → List (ChatRoom Text))
    (dec : Discrete Text) (plus : Int → Int → Int) (L : IsLawful T members rooms dec plus)
    (works : CountWorks T) (blank : Text) (no_time : Time) (zero_int : Int) (base64 : Text → Text)
    (type_text : Text) (names links : Text → Bool) (drop_names : Text → Text)
    (put_link : Text → Text → Text) (coupon_link : Text → Option Text)
    (comma_join : Text → Text → Text) (now : ℕ) (Q : Messages Text Db) (hash_id : ℕ → Text)
    (welcome : Text → Text × ℕ) (default_interval : ℕ) (leaves : LeavesTables Q members) where
  abbrev Joined : Text → Text → Db → Db → Type 0
  Joined room user db db' = Joins T members rooms dec plus L room user db db'

  -- The row that Ensure gives is stored as one of its chat room and its user.
  save_ensured_join :
      (v : JoinRow Text Time Int) (o : Option (Option (ChatRoomMember Text Time Int)))
      (m : ChatRoomMember Text Time Int) (db d : Db)
      → v.vc_chat_room_serial_no ≢ T.empty
      → v.vc_wx_user_serial_no ≢ T.empty
      → T.first_member v.vc_chat_room_serial_no v.vc_wx_user_serial_no db ≡ o
      → ensure T blank no_time zero_int v.vc_chat_room_serial_no v.vc_wx_user_serial_no db ≡ some m
      → T.save_member (joins base64 v m) db ≡ some d
      → Joined v.vc_chat_room_serial_no v.vc_wx_user_serial_no db d
  unfolding ensure joins new_member
  save_ensured_join v none m db d g gu f e s = absurd (ground (arith, f, e))
  save_ensured_join v (some none) m db d g gu f e s =
      let q : m
          ≡ new_member T blank no_time zero_int v.vc_chat_room_serial_no v.vc_wx_user_serial_no =
        ground (arith, f, e) in
      subst (λ t. Joined t v.vc_wx_user_serial_no db d)
        (ap (λ (y : ChatRoomMember Text Time Int). y.chat_room_serial_no) q)
        (subst (λ t. Joined m.chat_room_serial_no t db d)
          (ap (λ (y : ChatRoomMember Text Time Int). y.wx_user_serial_no) q)
          (Joins-new T members rooms dec plus L (joins base64 v m) db d s
            (ap (λ (y : ChatRoomMember Text Time Int). y.id) q) refl))
  save_ensured_join v (some (some x)) m db d g gu f e s =
      let q : x ≡ m = ground (arith, f, e) in
      let (k, n, r, u) =
        L.first_member-some v.vc_chat_room_serial_no v.vc_wx_user_serial_no db x g gu f in
      let room : m.chat_room_serial_no ≡ v.vc_chat_room_serial_no =
        ap (λ (y : ChatRoomMember Text Time Int). y.chat_room_serial_no) (sym q) ∙ r in
      let user : m.wx_user_serial_no ≡ v.vc_wx_user_serial_no =
        ap (λ (y : ChatRoomMember Text Time Int). y.wx_user_serial_no) (sym q) ∙ u in
      subst (λ t. Joined t v.vc_wx_user_serial_no db d) room
        (subst (λ t. Joined m.chat_room_serial_no t db d) user
          (Joins-old T members rooms dec plus L x (joins base64 v m) db d (λ z. g (sym room ∙ z))
            (λ z. gu (sym user ∙ z)) (ap₂ (λ a b. T.first_member a b db) room user ∙ f) s
            (ap (λ (y : ChatRoomMember Text Time Int). y.id) (sym q)) refl))

  abbrev row_of : JoinRow Text Time Int → Db → Db × Option Failure
  row_of v db =
      join_row T dec blank no_time zero_int base64 type_text names links drop_names put_link
        coupon_link comma_join now Q hash_id welcome default_interval v db

  abbrev welcomed : Text → Text → Db → Db
  welcomed room user db =
      send_welcome T dec blank no_time zero_int base64 type_text names links drop_names put_link
        coupon_link comma_join now Q hash_id welcome default_interval room user db

  members-welcomed : (room user : Text) (db : Db) → members (welcomed room user db) ≡ members db
  unfolding send_welcome
  members-welcomed room user db =
      view-send Q members leaves dec blank type_text names links drop_names put_link coupon_link
        comma_join now hash_id welcome default_interval room user blank db

  save_join-none :
      (v : JoinRow Text Time Int) (o : Option (ChatRoomMember Text Time Int)) (db db' : Db)
      → save_join T dec blank no_time zero_int base64 type_text names links drop_names put_link
          coupon_link comma_join now Q hash_id welcome default_interval v o db
        ≡ (db', none)
      → (m : ChatRoomMember Text Time Int) × (d : Db) × (o ≡ some m)
        × (T.save_member (joins base64 v m) db ≡ some d)
        × (members db' ≡ members d)
  unfolding save_join recount
  save_join-none v none db db' h = absurd (cc)
  save_join-none v (some m) db db' h =
      let (d, e, f) = and_then-none _ _ db' h in
      let sent : Db = welcomed m.chat_room_serial_no m.wx_user_serial_no d in
      let q : recounted T v.vc_chat_room_serial_no sent ≡ db' = cc in
      (
        m,
        d,
        refl,
        call-none _ db d e,
        ap members (sym q)
            ∙ members-recounted T members rooms dec plus L works v.vc_chat_room_serial_no sent
            ∙ members-welcomed m.chat_room_serial_no m.wx_user_serial_no d,
      )

  join_row-Joined :
      (v : JoinRow Text Time Int) (db db' : Db)
      → v.vc_chat_room_serial_no ≢ T.empty
      → v.vc_wx_user_serial_no ≢ T.empty
      → row_of v db ≡ (db', none)
      → Joined v.vc_chat_room_serial_no v.vc_wx_user_serial_no db db'
  unfolding join_row
  join_row-Joined v db db' g gu h =
      let (m, d, e, s, q) = save_join-none v _ db db' h in
      let j = save_ensured_join v _ m db d g gu refl e s in
      record {
        joined =
            Active-eq T members rooms dec plus L v.vc_chat_room_serial_no v.vc_wx_user_serial_no d
              db' q j.joined;
        still = λ place other a.
            Active-eq T members rooms dec plus L place other d db' q (j.still place other a);
      }

  -- The serial numbers of the chat rooms and of the users are not empty.
  abbrev pub AreGiven : List (JoinRow Text Time Int) → Type 0
  AreGiven list =
      (v : JoinRow Text Time Int)
      → Among v list
      → (v.vc_chat_room_serial_no ≢ T.empty) × (v.vc_wx_user_serial_no ≢ T.empty)

  each-Joined :
      (list : List (JoinRow Text Time Int)) (db db' : Db)
      → AreGiven list
      → each row_of list db ≡ (db', none)
      → ((place other : Text)
          → Active T members rooms dec plus L place other db
          → Active T members rooms dec plus L place other db')
        × ((v : JoinRow Text Time Int)
            → Among v list
            → Active T members rooms dec plus L v.vc_chat_room_serial_no v.vc_wx_user_serial_no db')
  unfolding each
  each-Joined [] db db' gs h =
      let e : db ≡ db' = cc in
      (λ place other a. subst (Active T members rooms dec plus L place other) e a, λ v a. absurd a)
  each-Joined (v ∷ list) db db' gs h =
      let (d, e, f) = and_then-none _ _ db' h in
      let (g, gu) = gs v (inl refl) in
      let j = join_row-Joined v db d g gu e in
      let (still, all) = each-Joined list d db' (λ w a. gs w (inr a)) f in
      (
        λ place other a. still place other (j.still place other a),
        λ w a. elim a [
          | inl q ↦
              subst
                (λ (t : JoinRow Text Time Int).
                  Active T members rooms dec plus L t.vc_chat_room_serial_no t.vc_wx_user_serial_no
                    db')
                (sym q) (still v.vc_chat_room_serial_no v.vc_wx_user_serial_no j.joined)
          | inr b ↦ all w b
        ],
      )

  module _ {Bytes : Type 0} (decode : Bytes → Option (Payload Text))
      (decode_list : Text → Option (List (JoinRow Text Time Int))) where
    -- A callback for members that join which returns no error has read a list, every member that
    -- the list names is active in its chat room afterwards, and whoever was active in any chat room
    -- still is. The serial numbers of the list are not empty, and the calls of the count do not fail.
    pub sync_member_join_callback-Active :
        (b : Bytes) (db db' : Db)
        → ((list : List (JoinRow Text Time Int))
            → rows_of decode decode_list b ≡ some list
            → (v : JoinRow Text Time Int) → Among v list
            → (v.vc_chat_room_serial_no ≢ T.empty) × (v.vc_wx_user_serial_no ≢ T.empty))
        → sync_member_join_callback T dec blank no_time zero_int base64 type_text names links
            drop_names put_link coupon_link comma_join now Q hash_id welcome default_interval decode
            decode_list b db
          ≡ (db', none)
        → (list : List (JoinRow Text Time Int)) × (rows_of decode decode_list b ≡ some list)
          × ((v : JoinRow Text Time Int)
              → Among v list
              → Active T members rooms dec plus L v.vc_chat_room_serial_no v.vc_wx_user_serial_no
                  db')
          × ((place other : Text)
              → Active T members rooms dec plus L place other db
              → Active T members rooms dec plus L place other db')
    unfolding sync_member_join_callback
    sync_member_join_callback-Active b db db' gs h =
        let (list, e, f) = with_data-none decode decode_list b (each row_of) db db' h in
        let (still, all) = each-Joined list db db' (gs list e) f in (list, e, all, still)
