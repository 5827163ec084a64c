-- ===== src/Uchat/RoomMembers/Listed.antt =====
-- uchat/callback.go: who is active after the loop over the entries.
use mathlib.Core.Logic.{if_pos}
use mathlib.Core.Path.{subst}
use zhiya.Prelude.{
  ◌≡◌, ◌≢◌, ◌⊎◌, inl, inr, refl, sym, ap, ◌∙◌, Bool, true, Option, none, some, List, [], ◌∷◌, ◌++◌,
  map, arith, Option-cases,
}
use zhiya.Uchat.Tables.{ChatRoomMember, ChatRoom, Tables, IsLawful, Among, active_in}
use zhiya.Uchat.RoomMembers.{
  Row, Saved, stops, saved, new_member, ensure, fill, save_found, add_serials, save_next, save_rows,
}
use zhiya.Uchat.RoomMembers.Active.{IsActive, Activates, Activates-new, Activates-old}

-- The users that the entries name.
abbrev pub serials_of : {Text Time Int : Type 0} → List (Row Text Time Int) → List Text
serials_of rows = map (λ v. v.vc_serial_no) rows

module _ {Text Db : Type 0} where
  add_serials-saved :
      (l k : List Text) (x : Db × Saved Text) (db' : Db)
      → add_serials l x ≡ (db', saved k)
      → (m : List Text) × (x ≡ (db', saved m)) × (k ≡ l ++ m)
  unfolding add_serials
  add_serials-saved l k (d, stops e) db' h = absurd (cc)
  add_serials-saved l k (d, saved m) db' h = (m, cc, cc)

  save_next-saved :
      (x : Db × Saved Text) (f : Db → Db × Saved Text) (db' : Db) (l : List Text)
      → save_next x f ≡ (db', saved l)
      → (d : Db) × (k m : List Text) × (x ≡ (d, saved k)) × (f d ≡ (db', saved m)) × (l ≡ k ++ m)
  unfolding save_next
  save_next-saved (d, stops e) f db' l h = absurd (cc)
  save_next-saved (d, saved k) f db' l h =
      let (m, e, q) = add_serials-saved k l (f d) db' h in (d, k, m, refl, e, q)

module _ {Text Time Int Db : Type 0} (T : Tables Text Time Int Db)
    (members : Db → List (ChatRoomMember Text Time Int)) (rooms : Db → List (ChatRoom Text))
    (dec : Discrete Text) (plus : Int → Int → Int) (L : IsLawful T members rooms dec plus)
    (room : Text) (blank : Text) (no_time : Time) (zero_int : Int) (base64 : Text → Option Text)
    (has_one : Text → Bool) where
  abbrev filled : Row Text Time Int → ChatRoomMember Text Time Int → ChatRoomMember Text Time Int
  filled v m = fill T blank no_time zero_int base64 has_one v m

  save_found-saved :
      (v : Row Text Time Int) (m : ChatRoomMember Text Time Int) (db db' : Db) (l : List Text)
      → save_found T blank no_time zero_int base64 has_one v (some m) db ≡ (db', saved l)
      → (T.save_member (filled v m) db ≡ some db') × (l ≡ m.wx_user_serial_no ∷ [])
  unfolding save_found
  save_found-saved v m db db' l h = elim (Option-cases (T.save_member (filled v m) db)) [
    | inl e ↦ absurd (ground (arith, e))
    | inr (d, e) ↦ (ground (arith, e), ground (arith, e))
  ]

  active-fill :
      (v : Row Text Time Int) (m : ChatRoomMember Text Time Int)
      → m.chat_room_serial_no ≡ room
      → active_in dec room (filled v m) ≡ true
  unfolding active_in fill
  active-fill v m e = if_pos (dec m.chat_room_serial_no room) e _ _

  -- The row that Ensure gives.
  abbrev IsEnsured : Text → ChatRoomMember Text Time Int → Db → Type 0
  IsEnsured user m db =
      (m ≡ new_member T blank no_time zero_int room user)
      ⊎ (T.first_member room user db ≡ some (some m))

  ensure-IsEnsured :
      (user : Text) (m : ChatRoomMember Text Time Int) (db : Db)
      → ensure T blank no_time zero_int room user db ≡ some m
      → IsEnsured user m db
  unfolding ensure
  ensure-IsEnsured user m db h = elim (Option-cases (T.first_member room user db)) [
    | inl e ↦ absurd (ground (arith, e))
    | inr (none, e) ↦ inl (ground (arith, e))
    | inr (some x, e) ↦ inr (ground (arith, e))
  ]

  save_found-Activates :
      (v : Row Text Time Int) (m : ChatRoomMember Text Time Int) (db db' : Db) (l : List Text)
      → room ≢ T.empty
      → v.vc_serial_no ≢ T.empty
      → IsEnsured v.vc_serial_no m db
      → save_found T blank no_time zero_int base64 has_one v (some m) db ≡ (db', saved l)
      → (l ≡ v.vc_serial_no ∷ []) × Activates T members rooms dec plus L room v.vc_serial_no db db'
  unfolding fill new_member
  save_found-Activates v m db db' l g gu (inl o) h =
      let (s, q) = save_found-saved v m db db' l h in
      let u : m.wx_user_serial_no ≡ v.vc_serial_no =
        ap (λ (y : ChatRoomMember Text Time Int). y.wx_user_serial_no) o in
      (
        q ∙ ap (λ t. t ∷ []) u,
        subst (λ t. Activates T members rooms dec plus L room t db db') u
            (Activates-new T members rooms dec plus L room (filled v m) db db' s
              (ap (λ (y : ChatRoomMember Text Time Int). y.id) o)
              (active-fill v m
                (ap (λ (y : ChatRoomMember Text Time Int). y.chat_room_serial_no) o))),
      )
  save_found-Activates v m db db' l g gu (inr o) h =
      let (s, q) = save_found-saved v m db db' l h in
      let (k, n, r, u) = L.first_member-some room v.vc_serial_no db m g gu o in
      (
        q ∙ ap (λ t. t ∷ []) u,
        subst (λ t. Activates T members rooms dec plus L room t db db') u
            (Activates-old T members rooms dec plus L room v.vc_serial_no m (filled v m) db db' g gu
              o s refl refl (active-fill v m r)),
      )

  save_ensured :
      (v : Row Text Time Int) (o : Option (ChatRoomMember Text Time Int)) (db d : Db)
      (k : List Text)
      → room ≢ T.empty
      → v.vc_serial_no ≢ T.empty
      → ensure T blank no_time zero_int room v.vc_serial_no db ≡ o
      → save_found T blank no_time zero_int base64 has_one v o db ≡ (d, saved k)
      → (k ≡ v.vc_serial_no ∷ []) × Activates T members rooms dec plus L room v.vc_serial_no db d
  save_ensured v none db d k g gu e h = absurd (unfold save_found in cc)
  save_ensured v (some m) db d k g gu e h =
      save_found-Activates v m db d k g gu (ensure-IsEnsured v.vc_serial_no m db e) h

  -- The row of an entry, and then the loop over the others.
  save_rows-cons :
      (v : Row Text Time Int) (rows : List (Row Text Time Int)) (db db' : Db) (l : List Text)
      → room ≢ T.empty
      → v.vc_serial_no ≢ T.empty
      → save_rows T blank no_time zero_int base64 has_one room (v ∷ rows) db ≡ (db', saved l)
      → (d : Db) × (k : List Text) × Activates T members rooms dec plus L room v.vc_serial_no db d
        × (save_rows T blank no_time zero_int base64 has_one room rows d ≡ (db', saved k))
        × (l ≡ v.vc_serial_no ∷ k)
  unfolding save_rows
  save_rows-cons v rows db db' l g gu h =
      let (d, k, m, e, f, q) = save_next-saved _ _ db' l h in
      let (p, a) =
        save_ensured v (ensure T blank no_time zero_int room v.vc_serial_no db) db d k g gu refl
          e in
      (d, m, a, f, q ∙ ap (λ t. t ++ m) p)

  -- The whole loop.
  pub record Lists (serials : List Text) (db db' : Db) : Type 0 where
    pub no_others :
        (r : ChatRoomMember Text Time Int)
        → Among r (members db')
        → Among r (members db) ⊎ Among r.wx_user_serial_no serials
    pub all_active :
        (user : Text) → Among user serials → IsActive T members rooms dec plus L room user db'
    pub still_active :
        (user : Text)
        → IsActive T members rooms dec plus L room user db
        → IsActive T members rooms dec plus L room user db'

  pub save_rows-Lists :
      (rows : List (Row Text Time Int)) (db db' : Db) (l : List Text)
      → room ≢ T.empty
      → ((user : Text) → Among user (serials_of rows) → user ≢ T.empty)
      → save_rows T blank no_time zero_int base64 has_one room rows db ≡ (db', saved l)
      → (l ≡ serials_of rows) × Lists (serials_of rows) db db'
  unfolding save_rows
  save_rows-Lists [] db db' l g gs h =
      let e : db ≡ db' = cc in
      (
        cc,
        record {
          no_others = λ r a. inl (subst (λ d. Among r (members d)) (sym e) a);
          all_active = λ user a. absurd a;
          still_active = λ user a. subst (IsActive T members rooms dec plus L room user) e a;
        },
      )
  save_rows-Lists (v ∷ rows) db db' l g gs h =
      let (d, k, a, f, q) = save_rows-cons v rows db db' l g (gs v.vc_serial_no (inl refl)) h in
      let (p, w) = save_rows-Lists rows d db' k g (λ user m. gs user (inr m)) f in
      (
        q ∙ ap (◌∷◌ v.vc_serial_no) p,
        record {
          no_others = λ r m. elim (w.no_others r m) [
            | inl n ↦ elim (a.no_others r n) [ inl i ↦ inl i | inr i ↦ inr (inl i) ]
            | inr n ↦ inr (inr n)
          ];
          all_active = λ user m. elim m [
            | inl e ↦
                w.still_active user
                  (subst (λ t. IsActive T members rooms dec plus L room t d) (sym e) a.is_active)
            | inr n ↦ w.all_active user n
          ];
          still_active = λ user m. w.still_active user (a.still_active user m);
        },
      )
