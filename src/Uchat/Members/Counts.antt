-- ===== src/Uchat/Members/Counts.antt =====
-- models/chat_rooms.go: the count of the members of a chat room.
use mathlib.Core.Path.{subst}
use zhiya.Prelude.{
  ℕ, ◌+◌, ◌≡◌, ◌≢◌, ◌⊎◌, inl, inr, refl, sym, ap, ap₂, ◌∙◌, none, some, List, [], ◌∷◌, map, arith,
  ◌==◌, if◌then◌else◌, Option-cases, Bool-cases,
}
use zhiya.Uchat.Tables.{
  ChatRoomMember, ChatRoom, Change, Tables, IsLawful, CountWorks, Among, active_count, active_in,
  is_of, change, change_where, quits, counts, sets_active, replace_room,
}
use zhiya.Uchat.Members.{apply_member_count, count_found, apply_chat_room_member_count, recounted}

Among-replace_room :
    {Text : Type 0} (c d : ChatRoom Text) (l : List (ChatRoom Text))
    → Among d (map (replace_room c) l)
    → (d ≡ c) ⊎ (Among d l × (d.id ≢ c.id))
unfolding replace_room
Among-replace_room c d [] h = absurd h
Among-replace_room {Text} c d (x ∷ l) (inl e) = elim (Bool-cases (x.id == c.id)) [
  | inl q ↦ inl (e ∙ rw q refl)
  | inr q ↦
      let f : d ≡ x = e ∙ rw q refl in
      inr (inl f, λ g. ground (arith, q, ap (λ (y : ChatRoom Text). y.id) f, g))
]
Among-replace_room c d (x ∷ l) (inr h) = elim (Among-replace_room c d l h) [
  | inl e ↦ inl e
  | inr r ↦ let (m, n) = r in inr (inr m, n)
]

module _ {Text Time Int Db : Type 0} (T : Tables Text Time Int Db) where
  -- What a call of `recount` has done.
  pub data Recounted (room : Text) (db : Db) : Db → Type 0 where
    no_room : T.first_room room db ≡ some none → Recounted room db db
    counted :
        {db' : Db} (c : ChatRoom Text) (n : ℕ)
        → T.first_room room db ≡ some (some c)
        → T.count_active c.chat_room_serial_no db ≡ some n
        → T.save_room (record c { member_count = n }) db ≡ some db'
        → Recounted room db db'

  recounted-none :
      (room : Text) (db : Db) → T.first_room room db ≡ some none → recounted T room db ≡ db
  unfolding recounted apply_chat_room_member_count count_found apply_member_count
  recounted-none room db e = rw (recounted, apply_chat_room_member_count, e, count_found) refl

  recounted-some :
      (room : Text) (db db' : Db) (c : ChatRoom Text) (n : ℕ)
      → T.first_room room db ≡ some (some c)
      → T.count_active c.chat_room_serial_no db ≡ some n
      → T.save_room (record c { member_count = n }) db ≡ some db'
      → recounted T room db ≡ db'
  unfolding recounted apply_chat_room_member_count count_found apply_member_count
  recounted-some room db db' c n e q s =
      rw (recounted, apply_chat_room_member_count, e, count_found, apply_member_count, q, s) refl

  -- Where the calls of the count do not fail.
  module _ (works : CountWorks T) where
    recounted-counted :
        (room : Text) (db : Db) (c : ChatRoom Text)
        → T.first_room room db ≡ some (some c)
        → Recounted room db (recounted T room db)
    recounted-counted room db c e = elim (Option-cases (T.count_active c.chat_room_serial_no db)) [
      | inl q ↦ absurd (works.count_active-works c.chat_room_serial_no db q)
      | inr (n, q) ↦ elim (Option-cases (T.save_room (record c { member_count = n }) db)) [
        | inl s ↦ absurd (works.save_room-works (record c { member_count = n }) db s)
        | inr (db', s) ↦
            subst (Recounted room db) (sym (recounted-some room db db' c n e q s))
              (counted c n e q s)
      ]
    ]

    recounted-Recounted : (room : Text) (db : Db) → Recounted room db (recounted T room db)
    recounted-Recounted room db = elim (Option-cases (T.first_room room db)) [
      | inl e ↦ absurd (works.first_room-works room db e)
      | inr (none, e) ↦ subst (Recounted room db) (sym (recounted-none room db e)) (no_room e)
      | inr (some c, e) ↦ recounted-counted room db c e
    ]

  module _ (members : Db → List (ChatRoomMember Text Time Int)) (rooms : Db → List (ChatRoom Text))
      (dec : Discrete Text) where
    -- The chat room stores the number of its members that are active.
    abbrev pub IsCounted : Text → Db → Type 0
    IsCounted room db =
        (c : ChatRoom Text)
        → Among c (rooms db)
        → c.chat_room_serial_no ≡ room
        → c.member_count ≡ active_count dec room (members db)

    module _ (plus : Int → Int → Int) (L : IsLawful T members rooms dec plus) where
      Recounted-members :
          (room : Text) (db db' : Db) → Recounted room db db' → members db' ≡ members db
      Recounted-members room db _ (no_room e) = refl
      Recounted-members room db db' (counted c n e q s) =
          L.save_room-members (record c { member_count = n }) db db' s

      -- A row after the call is the chat room with its new count, or a row of before.
      Recounted-rooms :
          (room : Text) (db db' : Db) (d : ChatRoom Text)
          → Recounted room db db'
          → Among d (rooms db')
          → ((d.chat_room_serial_no ≡ room) × (d.member_count ≡ active_count dec room (members db)))
            ⊎ (Among d (rooms db) × (d.chat_room_serial_no ≢ room))
      Recounted-rooms room db _ d (no_room e) m = inr (m, L.first_room-none room db d e m)
      Recounted-rooms room db db' d (counted c n e q s) m =
          let (w, r) = L.first_room-some room db c e in
          elim (Among-replace_room (record c { member_count = n }) d (rooms db)
            (subst (Among d) (L.save_room-rooms (record c { member_count = n }) db db' s) m)) [
              | inl f ↦ inl (
                ap (λ (y : ChatRoom Text). y.chat_room_serial_no) f ∙ r,
                ap (λ (y : ChatRoom Text). y.member_count) f
                    ∙ L.count_active-some c.chat_room_serial_no db n q
                    ∙ ap (λ t. active_count dec t (members db)) r,
              )
              | inr (m', k) ↦ inr (
                m',
                λ g. k (ap (λ (y : ChatRoom Text). y.id) (L.first_room-unique room db c d e m' g)),
              )
            ]

      module _ (works : CountWorks T) where
        pub members-recounted : (room : Text) (db : Db) → members (recounted T room db) ≡ members db
        members-recounted room db =
            Recounted-members room db (recounted T room db) (recounted-Recounted works room db)

        -- A count makes its own chat room right, and leaves right whatever chat room is so.
        pub IsCounted-recounted :
            (room other : Text) (db : Db)
            → ((other ≡ room) ⊎ IsCounted other db)
            → IsCounted other (recounted T room db)
        IsCounted-recounted room other db h d m r =
            elim (Recounted-rooms room db (recounted T room db) d
              (recounted-Recounted works room db) m) [
                | inl (g, k) ↦
                    k
                    ∙ ap (λ t. active_count dec t (members db)) (sym g ∙ r)
                    ∙ ap (active_count dec other) (sym (members-recounted room db))
                | inr (m', k) ↦ elim h [
                  | inl f ↦ absurd (k (r ∙ f))
                  | inr w ↦ w d m' r ∙ ap (active_count dec other) (sym (members-recounted room db))
                ]
              ]

module _ {Text Time Int : Type 0} (dec : Discrete Text) (plus : Int → Int → Int) where
  active_in-change_where :
      (other room user : Text) (id : ℕ) (c : Change Time Int) (m : ChatRoomMember Text Time Int)
      → other ≢ room
      → active_in dec other (change_where dec plus id room user c m) ≡ active_in dec other m
  unfolding active_in change_where is_of change
  active_in-change_where other room user id (quits d) m n = ground arith
  active_in-change_where other room user id (counts k d) m n = ground arith
  active_in-change_where other room user id (sets_active b) m n = ground arith

  -- A change in one chat room leaves the counts of the others alone.
  pub active_count-change_where :
      (other room user : Text) (id : ℕ) (c : Change Time Int)
      (l : List (ChatRoomMember Text Time Int))
      → other ≢ room
      → active_count dec other (map (change_where dec plus id room user c) l)
        ≡ active_count dec other l
  unfolding active_count
  active_count-change_where other room user id c [] n = refl
  active_count-change_where other room user id c (m ∷ l) n =
      ap₂ (λ b k. (if b then 1 else 0) + k) (active_in-change_where other room user id c m n)
        (active_count-change_where other room user id c l n)

module _ {Text Time Int Db : Type 0} (T : Tables Text Time Int Db)
    (members : Db → List (ChatRoomMember Text Time Int)) (rooms : Db → List (ChatRoom Text))
    (dec : Discrete Text) (plus : Int → Int → Int) (L : IsLawful T members rooms dec plus) where
  -- An update in one chat room leaves the others counted.
  pub IsCounted-update_members :
      (id : ℕ) (room user other : Text) (c : Change Time Int) (db db' : Db)
      → T.update_members id room user c db ≡ some db'
      → other ≢ room
      → IsCounted T members rooms dec other db
      → IsCounted T members rooms dec other db'
  IsCounted-update_members id room user other c db db' e n w d a r =
      w d (subst (Among d) (L.update_members-rooms id room user c db db' e) a) r
      ∙ sym (active_count-change_where dec plus other room user id c (members db) n)
      ∙ ap (active_count dec other) (sym (L.update_members-members id room user c db db' e))
