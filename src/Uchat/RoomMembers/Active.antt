-- ===== src/Uchat/RoomMembers/Active.antt =====
-- uchat/callback.go: who is active in a chat room after one member was saved or made inactive.
use mathlib.Core.Path.{subst}
use zhiya.Prelude.{
  ◌≡◌, ◌≢◌, ◌⊎◌, inl, inr, refl, sym, ap, ◌∙◌, true, false, some, List, [], ◌∷◌, ◌++◌, map, arith,
  ◌==◌, if◌then◌else◌, ℕ_discrete,
}
use zhiya.Uchat.Tables.{
  ChatRoomMember, ChatRoom, Tables, IsLawful, Among, active_in, replace_member,
}

module _ {A : Type 0} where
  pub Among-append_left : (a : A) (l k : List A) → Among a l → Among a (l ++ k)
  Among-append_left a [] k h = absurd h
  Among-append_left a (x ∷ l) k (inl e) = inl e
  Among-append_left a (x ∷ l) k (inr h) = inr (Among-append_left a l k h)

  pub Among-append_right : (a : A) (l k : List A) → Among a k → Among a (l ++ k)
  Among-append_right a [] k h = h
  Among-append_right a (x ∷ l) k h = inr (Among-append_right a l k h)

  pub Among-append : (a : A) (l k : List A) → Among a (l ++ k) → Among a l ⊎ Among a k
  Among-append a [] k h = inr h
  Among-append a (x ∷ l) k (inl e) = inl (inl e)
  Among-append a (x ∷ l) k (inr h) = elim (Among-append a l k h) [
    | inl m ↦ inl (inr m)
    | inr m ↦ inr m
  ]

module _ {A B : Type 0} where
  pub Among-map : (f : A → B) (a : A) (l : List A) → Among a l → Among (f a) (map f l)
  Among-map f a [] h = absurd h
  Among-map f a (x ∷ l) (inl e) = inl (ap f e)
  Among-map f a (x ∷ l) (inr h) = inr (Among-map f a l h)

  pub Among-map_inv :
      (f : A → B) (a : B) (l : List A) → Among a (map f l) → (x : A) × Among x l × (a ≡ f x)
  Among-map_inv f a [] h = absurd h
  Among-map_inv f a (x ∷ l) (inl e) = (x, inl refl, e)
  Among-map_inv f a (x ∷ l) (inr h) = let (y, m, e) = Among-map_inv f a l h in (y, inr m, e)

module _ {Text Time Int : Type 0} where
  pub replace_member-eq :
      (m r : ChatRoomMember Text Time Int) → r.id ≡ m.id → replace_member m r ≡ m
  unfolding replace_member
  replace_member-eq m r e =
      let f : (r.id == m.id) ≡ true = ground (arith, e) in ap (λ b. if b then m else r) f

  pub replace_member-ne :
      (m r : ChatRoomMember Text Time Int) → r.id ≢ m.id → replace_member m r ≡ r
  unfolding replace_member
  replace_member-ne m r n =
      let f : (r.id == m.id) ≡ false = ground (arith, n) in ap (λ b. if b then m else r) f

module _ {Text Time Int Db : Type 0} (T : Tables Text Time Int Db)
    (members : Db → List (ChatRoomMember Text Time Int)) (rooms : Db → List (ChatRoom Text))
    (dec : Discrete Text) (plus : Int → Int → Int) (L : IsLawful T members rooms dec plus)
    (room : Text) where
  -- Some row has the user active in the chat room.
  abbrev pub IsActive : Text → Db → Type 0
  IsActive user db =
      (r : ChatRoomMember Text Time Int) × Among r (members db)
      × (active_in dec room r ≡ true)
      × (r.wx_user_serial_no ≡ user)

  -- What it means to save an active member of the chat room: rows are changed for this user only,
  -- the user is active, and whoever was active still is.
  pub record Activates (user : Text) (db db' : Db) : Type 0 where
    pub no_others :
        (r : ChatRoomMember Text Time Int)
        → Among r (members db')
        → Among r (members db) ⊎ (r.wx_user_serial_no ≡ user)
    pub is_active : IsActive user db'
    pub still_active : (other : Text) → IsActive other db → IsActive other db'

  pub Activates-new :
      (m : ChatRoomMember Text Time Int) (db db' : Db)
      → T.save_member m db ≡ some db'
      → m.id ≡ 0
      → active_in dec room m ≡ true
      → Activates m.wx_user_serial_no db db'
  unfolding active_in
  Activates-new m db db' s z a =
      let (n, e) = L.save_member-new m db db' s z in
      record {
        no_others = λ r h. elim (Among-append r (members db) _ (subst (Among r) e h)) [
          | inl k ↦ inl k
          | inr (inl q) ↦ inr (ap (λ (y : ChatRoomMember Text Time Int). y.wx_user_serial_no) q)
          | inr (inr q) ↦ absurd q
        ];
        is_active = (
          record m { id = n },
          subst (Among (record m { id = n })) (sym e)
              (Among-append_right _ (members db) _ (inl refl)),
          a,
          refl,
        );
        still_active = λ other h.
            let (r, k, b, u) = h in
            (r, subst (Among r) (sym e) (Among-append_left r (members db) _ k), b, u);
      }

  -- `x` is the row that was found.
  pub Activates-old :
      (user : Text) (x m : ChatRoomMember Text Time Int) (db db' : Db)
      → room ≢ T.empty
      → user ≢ T.empty
      → T.first_member room user db ≡ some (some x)
      → T.save_member m db ≡ some db'
      → m.id ≡ x.id
      → m.wx_user_serial_no ≡ x.wx_user_serial_no
      → active_in dec room m ≡ true
      → Activates m.wx_user_serial_no db db'
  Activates-old user x m db db' g gu f s i u a =
      let (k, n, q, w) = L.first_member-some room user db x g gu f in
      let e : members db' ≡ map (replace_member m) (members db) =
        L.save_member-old m db db' s (λ z. n (sym i ∙ z)) in
      record {
        no_others = λ r h.
            let (y, j, g) = Among-map_inv (replace_member m) r (members db) (subst (Among r) e h) in
            elim (ℕ_discrete y.id m.id) [
              | yes p ↦ inr (
                  ap (λ (y : ChatRoomMember Text Time Int). y.wx_user_serial_no)
                    (g ∙ replace_member-eq m y p))
              | no p ↦ inl (subst (λ t. Among t (members db)) (sym (g ∙ replace_member-ne m y p)) j)
            ];
        is_active = (
          m,
          subst (Among m) (sym e) (
              subst (λ t. Among t (map (replace_member m) (members db)))
                (replace_member-eq m x (sym i)) (Among-map (replace_member m) x (members db) k)),
          a,
          refl,
        );
        still_active = λ other h.
            let (r, j, b, v) = h in
            let there : Among (replace_member m r) (members db') =
              subst (Among (replace_member m r)) (sym e)
                (Among-map (replace_member m) r (members db) j) in
            elim (ℕ_discrete r.id m.id) [
              | yes p ↦ (
                m,
                subst (λ t. Among t (members db')) (replace_member-eq m r p) there,
                a,
                u
                    ∙ ap (λ (y : ChatRoomMember Text Time Int). y.wx_user_serial_no)
                        (sym (L.first_member-unique room user db x r f j (p ∙ i)))
                    ∙ v,
              )
              | no p ↦ (r, subst (λ t. Among t (members db')) (replace_member-ne m r p) there, b, v)
            ];
      }
