-- ===== src/Uchat/Tables/Memory.antt =====
-- A database in memory with one chat room, whose texts, times and counts are numbers: an instance
-- of the tables of the callbacks.
use mathlib.Core.Path.{subst}
use zhiya.Prelude.{
  ℕ, suc, ◌+◌, ◌≡◌, ◌≢◌, inl, inr, refl, sym, ap, ◌∙◌, Bool, true, false, ◌&&◌, not, Option, none,
  some, List, [], ◌∷◌, ◌++◌, map, arith, ◌==◌, if◌then◌else◌, Bool-cases, some-eq-some, length,
  ℕ_discrete,
}
use zhiya.Uchat.Tables.{
  ChatRoomMember, ChatRoom, Tables, IsLawful, CountWorks, Among, is_of, active_in, active_count,
  change_where, replace_member, replace_room,
}

pub record Memory : Type 0 where
  pub rows : List (ChatRoomMember ℕ ℕ ℕ)
  pub room : ChatRoom ℕ

abbrev pub rooms_in : Memory → List (ChatRoom ℕ)
rooms_in db = db.room ∷ []

-- The rows with an id; `find_member` looks for one that has its id alone.
unfoldable pub occurrences : ℕ → List (ChatRoomMember ℕ ℕ ℕ) → ℕ
occurrences id [] = 0
occurrences id (m ∷ l) = (if m.id == id then 1 else 0) + occurrences id l

unfoldable pub alone :
    Option (ChatRoomMember ℕ ℕ ℕ) → List (ChatRoomMember ℕ ℕ ℕ) → Option (ChatRoomMember ℕ ℕ ℕ)
alone none l = none
alone (some m) l = if occurrences m.id l == 1 then some m else none

occurrences-Among :
    (l : List (ChatRoomMember ℕ ℕ ℕ)) (m : ChatRoomMember ℕ ℕ ℕ) (id : ℕ)
    → Among m l
    → m.id ≡ id
    → occurrences id l ≢ 0
unfolding occurrences
occurrences-Among [] m id a e z = absurd a
occurrences-Among (x ∷ l) m id (inl q) e z =
    ground (arith, ap (λ (y : ChatRoomMember ℕ ℕ ℕ). y.id) q, e, z)
occurrences-Among (x ∷ l) m id (inr a) e z = occurrences-Among l m id a e (omega arith)

occurrences_unique :
    (l : List (ChatRoomMember ℕ ℕ ℕ)) (m r : ChatRoomMember ℕ ℕ ℕ)
    → occurrences m.id l ≡ 1
    → Among m l
    → Among r l
    → r.id ≡ m.id
    → r ≡ m
unfolding occurrences
occurrences_unique [] m r o a b e = absurd a
occurrences_unique (x ∷ l) m r o (inl p) (inl q) e = q ∙ sym p
occurrences_unique (x ∷ l) m r o (inl p) (inr b) e =
    absurd (
      occurrences-Among l r m.id b e (ground (arith, ap (λ (y : ChatRoomMember ℕ ℕ ℕ). y.id) p, o)))
occurrences_unique (x ∷ l) m r o (inr a) (inl q) e = absurd (
    occurrences-Among l m m.id a refl
      (ground (arith, ap (λ (y : ChatRoomMember ℕ ℕ ℕ). y.id) q, e, o)))
occurrences_unique (x ∷ l) m r o (inr a) (inr b) e = elim (Bool-cases (x.id == m.id)) [
  | inl f ↦ absurd (occurrences-Among l m m.id a refl (ground (arith, f, o)))
  | inr f ↦ occurrences_unique l m r (ground (arith, f, o)) a b e
]

alone-some :
    (o : Option (ChatRoomMember ℕ ℕ ℕ)) (l : List (ChatRoomMember ℕ ℕ ℕ)) (m : ChatRoomMember ℕ ℕ ℕ)
    → alone o l ≡ some m
    → (o ≡ some m) × (occurrences m.id l ≡ 1)
unfolding alone
alone-some none l m h = absurd (cc)
alone-some (some x) l m h = elim (Bool-cases (occurrences x.id l == 1)) [
  | inl e ↦
      let q : x ≡ m = some-eq-some (sym (rw e refl) ∙ h) in
      (ap some q, ap (λ (y : ChatRoomMember ℕ ℕ ℕ). occurrences y.id l) (sym q) ∙ ground (arith, e))
  | inr e ↦ absurd (ground (arith, e))
]

unfoldable pub find_member : ℕ → ℕ → List (ChatRoomMember ℕ ℕ ℕ) → Option (ChatRoomMember ℕ ℕ ℕ)
find_member room user [] = none
find_member room user (m ∷ l) =
    let rest = find_member room user l in
    if not (m.id == 0) && is_of ℕ_discrete room user m then some m else rest

unfoldable pub only_active : ℕ → List (ChatRoomMember ℕ ℕ ℕ) → List (ChatRoomMember ℕ ℕ ℕ)
only_active room [] = []
only_active room (m ∷ l) =
    let rest = only_active room l in if active_in ℕ_discrete room m then m ∷ rest else rest

unfoldable pub save_row :
    ChatRoomMember ℕ ℕ ℕ → List (ChatRoomMember ℕ ℕ ℕ) → List (ChatRoomMember ℕ ℕ ℕ)
save_row m l =
    if m.id == 0 then l ++ record m { id = suc (length l) } ∷ [] else map (replace_member m) l

unfoldable pub memory : Tables ℕ ℕ ℕ Memory
memory = record {
  empty = 0;
  first_member = λ room user db. some (alone (find_member room user db.rows) db.rows);
  active_members = λ room db. some (only_active room db.rows);
  save_member = λ m db. some (record db { rows = save_row m db.rows });
  update_members = λ id room user c db.
      some (record db { rows = map (change_where ℕ_discrete ◌+◌ id room user c) db.rows });
  count_active = λ room db. some (active_count ℕ_discrete room db.rows);
  first_room = λ room db. some (if db.room.chat_room_serial_no == room then some db.room else none);
  save_room = λ c db. some (record db { room = replace_room c db.room });
}

is_of-true :
    (room user : ℕ) (m : ChatRoomMember ℕ ℕ ℕ)
    → is_of ℕ_discrete room user m ≡ true
    → (m.chat_room_serial_no ≡ room) × (m.wx_user_serial_no ≡ user)
unfolding is_of
is_of-true room user m h = elim (ℕ_discrete m.chat_room_serial_no room) [
  | yes e ↦ elim (ℕ_discrete m.wx_user_serial_no user) [ yes f ↦ (e, f) | no n ↦ ground arith ]
  | no n ↦ ground arith
]

test :
    (room user : ℕ) (m : ChatRoomMember ℕ ℕ ℕ)
    → (not (m.id == 0) && is_of ℕ_discrete room user m) ≡ true
    → (m.id ≢ 0) × (is_of ℕ_discrete room user m ≡ true)
test room user m h = ground arith

only_active_cons :
    (room : ℕ) (x : ChatRoomMember ℕ ℕ ℕ) (l : List (ChatRoomMember ℕ ℕ ℕ)) (b : Bool)
    → active_in ℕ_discrete room x ≡ b
    → only_active room (x ∷ l) ≡ (if b then x ∷ only_active room l else only_active room l)
unfolding only_active
only_active_cons room x l b e = rw (only_active, e) refl

find_member-some :
    (room user : ℕ) (l : List (ChatRoomMember ℕ ℕ ℕ)) (m : ChatRoomMember ℕ ℕ ℕ)
    → find_member room user l ≡ some m
    → Among m l × (m.id ≢ 0) × (m.chat_room_serial_no ≡ room) × (m.wx_user_serial_no ≡ user)
unfolding find_member
find_member-some room user [] m h = absurd (cc)
find_member-some room user (x ∷ l) m h =
    elim (Bool-cases (not (x.id == 0) && is_of ℕ_discrete room user x)) [
      | inl e ↦
          let q : x ≡ m = some-eq-some (sym (rw (find_member, e) refl) ∙ h) in
          let (n, t) = test room user x e in
          let (f, g) = is_of-true room user x t in
          (
            inl (sym q),
            λ z. n (ap (λ (y : ChatRoomMember ℕ ℕ ℕ). y.id) q ∙ z),
            ap (λ (y : ChatRoomMember ℕ ℕ ℕ). y.chat_room_serial_no) (sym q) ∙ f,
            ap (λ (y : ChatRoomMember ℕ ℕ ℕ). y.wx_user_serial_no) (sym q) ∙ g,
          )
      | inr e ↦
          let (a, n, f, g) = find_member-some room user l m (sym (rw (find_member, e) refl) ∙ h) in
          (inr a, n, f, g)
    ]

module _ (room : ℕ) (m : ChatRoomMember ℕ ℕ ℕ) where
  only_active-Among :
      (l : List (ChatRoomMember ℕ ℕ ℕ))
      → Among m (only_active room l)
      → Among m l × (active_in ℕ_discrete room m ≡ true)
  unfolding only_active
  only_active-Among [] h = absurd h
  only_active-Among (x ∷ l) h = elim (Bool-cases (active_in ℕ_discrete room x)) [
    | inl e ↦ elim (subst (Among m) (only_active_cons room x l true e) h) [
      | inl q ↦ (inl q, ap (active_in ℕ_discrete room) q ∙ e)
      | inr k ↦ let (a, b) = only_active-Among l k in (inr a, b)
    ]
    | inr e ↦
        let (a, b) = only_active-Among l (subst (Among m) (only_active_cons room x l false e) h) in
        (inr a, b)
  ]

  Among-only_active :
      (l : List (ChatRoomMember ℕ ℕ ℕ))
      → Among m l
      → active_in ℕ_discrete room m ≡ true
      → Among m (only_active room l)
  unfolding only_active
  Among-only_active [] h b = absurd h
  Among-only_active (x ∷ l) (inl q) b =
      subst (Among m)
        (sym (only_active_cons room x l true (ap (active_in ℕ_discrete room) (sym q) ∙ b))) (inl q)
  Among-only_active (x ∷ l) (inr h) b = elim (Bool-cases (active_in ℕ_discrete room x)) [
    | inl e ↦
        subst (Among m) (sym (only_active_cons room x l true e)) (inr (Among-only_active l h b))
    | inr e ↦ subst (Among m) (sym (only_active_cons room x l false e)) (Among-only_active l h b)
  ]

-- The chat room of the table, if it is the one that is looked for.
room-some :
    (room : ℕ) (r c : ChatRoom ℕ)
    → (if r.chat_room_serial_no == room then some r else none) ≡ some c
    → (c ≡ r) × (c.chat_room_serial_no ≡ room)
room-some room r c h = elim (Bool-cases (r.chat_room_serial_no == room)) [
  | inl e ↦
      let q : r ≡ c = some-eq-some (sym (rw e refl) ∙ h) in
      (sym q, ap (λ (y : ChatRoom ℕ). y.chat_room_serial_no) (sym q) ∙ ground (arith, e))
  | inr e ↦ absurd (ground (arith, e))
]

room-none :
    (room : ℕ) (r : ChatRoom ℕ)
    → (if r.chat_room_serial_no == room then some r else none) ≡ none
    → r.chat_room_serial_no ≢ room
room-none room r h e = ground (arith, h, e)

save_row-new :
    (m : ChatRoomMember ℕ ℕ ℕ) (l : List (ChatRoomMember ℕ ℕ ℕ))
    → m.id ≡ 0
    → save_row m l ≡ l ++ record m { id = suc (length l) } ∷ []
unfolding save_row
save_row-new m l z =
    let e : (m.id == 0) ≡ true = ground (arith, z) in
    ap (λ b. if b then l ++ record m { id = suc (length l) } ∷ [] else map (replace_member m) l) e

save_row-old :
    (m : ChatRoomMember ℕ ℕ ℕ) (l : List (ChatRoomMember ℕ ℕ ℕ))
    → m.id ≢ 0
    → save_row m l ≡ map (replace_member m) l
unfolding save_row
save_row-old m l z =
    let e : (m.id == 0) ≡ false = ground (arith, z) in
    ap (λ b. if b then l ++ record m { id = suc (length l) } ∷ [] else map (replace_member m) l) e

pub memory-CountWorks : CountWorks memory
unfolding memory
memory-CountWorks = record {
  first_room-works = λ room db e. absurd (cc);
  count_active-works = λ room db e. absurd (cc);
  save_room-works = λ c db e. absurd (cc);
}

pub memory-IsLawful : IsLawful memory Memory.rows rooms_in ℕ_discrete ◌+◌
unfolding memory
memory-IsLawful = record {
  first_member-some = λ room user db m g u h.
      let (e, o) = alone-some (find_member room user db.rows) db.rows m (some-eq-some h) in
      find_member-some room user db.rows m e;
  first_member-unique = λ room user db m r h a i.
      let (e, o) = alone-some (find_member room user db.rows) db.rows m (some-eq-some h) in
      let (b, n, f, g) = find_member-some room user db.rows m e in
      occurrences_unique db.rows m r o b a i;
  save_member-new = λ m db db' h z.
      (suc (length db.rows), ap Memory.rows (sym (some-eq-some h)) ∙ save_row-new m db.rows z);
  save_member-old =
      λ m db db' h z. ap Memory.rows (sym (some-eq-some h)) ∙ save_row-old m db.rows z;
  save_member-rooms = λ m db db' h. ap rooms_in (sym (some-eq-some h));
  update_members-members = λ id room user c db db' h. ap Memory.rows (sym (some-eq-some h));
  update_members-rooms = λ id room user c db db' h. ap rooms_in (sym (some-eq-some h));
  active_members-some = λ room db l m h.
      let q : only_active room db.rows ≡ l = some-eq-some h in
      (
        λ a. only_active-Among room m db.rows (subst (Among m) (sym q) a),
        λ r. let (a, b) = r in subst (Among m) q (Among-only_active room m db.rows a b),
      );
  count_active-some = λ room db n h. sym (some-eq-some h);
  first_room-some =
      λ room db c h. let (q, e) = room-some room db.room c (some-eq-some h) in (inl q, e);
  first_room-unique = λ room db c d h a e.
      let (q, f) = room-some room db.room c (some-eq-some h) in
      elim a [ inl r ↦ r ∙ sym q | inr z ↦ absurd z ];
  first_room-none = λ room db d h a e. elim a [
    | inl r ↦
        room-none room db.room (some-eq-some h)
          (ap (λ (y : ChatRoom ℕ). y.chat_room_serial_no) (sym r) ∙ e)
    | inr z ↦ z
  ];
  save_room-rooms = λ c db db' h. ap rooms_in (sym (some-eq-some h));
  save_room-members = λ c db db' h. ap Memory.rows (sym (some-eq-some h));
}
