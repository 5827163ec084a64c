-- ===== src/Uchat/JoinMessage/Pending.antt =====
-- uchat/sync.go: the welcome messages that wait for a chat room.
use mathlib.Core.Logic.{ite, if_neg}
use zhiya.Prelude.{
  ℕ, ◌+◌, ◌≡◌, ◌≢◌, ◌⊎◌, inl, inr, refl, ap, ap₂, ◌∙◌, Bool, true, false, ◌&&◌, Option, none, some,
  List, [], ◌∷◌, ◌++◌, map, arith, ◌==◌, if◌then◌else◌, Bool-cases, ℕ_discrete,
}
use zhiya.Uchat.Tables.{Among}
use zhiya.Uchat.JoinMessage.{Message, Messages, join_more}

unfoldable pub replace_message : {Text : Type 0} → Message Text → Message Text → Message Text
replace_message new m = if m.id == new.id then new else m

module _ {Text : Type 0} (dec : Discrete Text) where
  -- A message that waits for the new members of a chat room.
  unfoldable pub is_pending : Text → Message Text → Bool
  is_pending room m =
      ite (dec m.chat_room_serial_no_list room) ((m.send_type == 10) && (m.send_status == 0)) false

  unfoldable pub pending_count : Text → List (Message Text) → ℕ
  pending_count room [] = 0
  pending_count room (m ∷ l) = (if is_pending room m then 1 else 0) + pending_count room l

-- What gorm documents of these calls, where they succeed, about the rows of the table.
pub record QueueIsLawful {Text Db : Type 0} (Q : Messages Text Db)
    (queue : Db → List (Message Text)) (dec : Discrete Text) : Type 0 where
  pub pending-some :
      (room : Text) (db : Db) (m : Message Text)
      → Q.pending room db ≡ some (some m)
      → Among m (queue db)
  pub pending-unique :
      (room : Text) (db : Db) (m r : Message Text)
      → Q.pending room db ≡ some (some m)
      → Among r (queue db)
      → r.id ≡ m.id
      → r ≡ m
  pub pending-none :
      (room : Text) (db : Db)
      → Q.pending room db ≡ some none
      → pending_count dec room (queue db) ≡ 0
  pub create-queue :
      (m : Message Text) (db db' : Db) (n : ℕ)
      → Q.create m db ≡ some (db', n)
      → queue db' ≡ queue db ++ record m { id = n } ∷ []
  pub create-new :
      (m r : Message Text) (db db' : Db) (n : ℕ)
      → Q.create m db ≡ some (db', n)
      → Among r (queue db)
      → r.id ≢ n
  pub save-queue :
      (m : Message Text) (db db' : Db)
      → Q.save m db ≡ some db'
      → queue db' ≡ map (replace_message m) (queue db)
  pub commit-queue : (db db' : Db) → Q.commit db ≡ some db' → queue db' ≡ queue db

module _ {Text : Type 0} (dec : Discrete Text) where
  replace_message-eq : (m r : Message Text) → r.id ≡ m.id → replace_message m r ≡ m
  unfolding replace_message
  replace_message-eq m r e =
      let f : (r.id == m.id) ≡ true = ground (arith, e) in ap (λ b. if b then m else r) f

  replace_message-ne : (m r : Message Text) → r.id ≢ m.id → replace_message m r ≡ r
  unfolding replace_message
  replace_message-ne m r n =
      let f : (r.id == m.id) ≡ false = ground (arith, n) in ap (λ b. if b then m else r) f

  -- A new version of rows that wait for the same chat rooms changes no count.
  pub pending_count-replace :
      (room : Text) (m : Message Text) (l : List (Message Text))
      → ((r : Message Text)
          → Among r l
          → r.id ≡ m.id
          → is_pending dec room m ≡ is_pending dec room r)
      → pending_count dec room (map (replace_message m) l) ≡ pending_count dec room l
  unfolding pending_count
  pending_count-replace room m [] h = refl
  pending_count-replace room m (r ∷ l) h =
      let rest = pending_count-replace room m l (λ x a. h x (inr a)) in
      elim (ℕ_discrete r.id m.id) [
        | yes e ↦
            ap₂ (λ b k. (if b then 1 else 0) + k)
              (ap (is_pending dec room) (replace_message-eq m r e) ∙ h r (inl refl) e) rest
        | no n ↦
            ap₂ (λ b k. (if b then 1 else 0) + k)
              (ap (is_pending dec room) (replace_message-ne m r n)) rest
      ]

  pub pending_count-append :
      (room : Text) (l : List (Message Text)) (m : Message Text)
      → pending_count dec room (l ++ m ∷ [])
        ≡ pending_count dec room l + (if is_pending dec room m then 1 else 0)
  unfolding pending_count
  pending_count-append room [] m = omega arith
  pending_count-append room (x ∷ l) m = omega (arith, pending_count-append room l m)

  pub is_pending-join_more :
      (room : Text) (names : Text → Bool) (comma_join : Text → Text → Text) (blank type_text : Text)
      (links : Text → Bool) (drop_names : Text → Text) (put_link : Text → Text → Text)
      (coupon_link : Text → Option Text) (now : ℕ) (msg user : Text) (m : Message Text)
      → is_pending dec room (
          join_more dec blank type_text names links drop_names put_link coupon_link comma_join now
            msg user m)
        ≡ is_pending dec room m
  unfolding is_pending join_more
  is_pending-join_more room names comma_join blank type_text links drop_names put_link coupon_link
        now msg user m =
      elim (Bool-cases (names msg)) [ inl e ↦ rw e refl | inr e ↦ rw e refl ]

  pub join_more-id :
      (names : Text → Bool) (comma_join : Text → Text → Text) (blank type_text : Text)
      (links : Text → Bool) (drop_names : Text → Text) (put_link : Text → Text → Text)
      (coupon_link : Text → Option Text) (now : ℕ) (msg user : Text) (m : Message Text)
      → Message.id (
          join_more dec blank type_text names links drop_names put_link coupon_link comma_join now
            msg user m)
        ≡ m.id
  unfolding join_more
  join_more-id names comma_join blank type_text links drop_names put_link coupon_link now msg user
        m =
      elim (Bool-cases (names msg)) [ inl e ↦ rw e refl | inr e ↦ rw e refl ]

  -- The id and the sending mark do not matter.
  pub same_pending :
      (other room : Text) (n : ℕ) (mark : Text) (m : Message Text)
      → is_pending dec other (record m { id = n; queue_id = mark })
        ≡ is_pending dec other (record m { id = n })
  unfolding is_pending
  same_pending other room n mark m = refl

  pub is_pending_other :
      (other : Text) (m : Message Text)
      → m.chat_room_serial_no_list ≢ other
      → is_pending dec other m ≡ false
  unfolding is_pending
  is_pending_other other m n = if_neg (dec m.chat_room_serial_no_list other) n _ _

  pub Among-last :
      (r : Message Text) (l : List (Message Text)) (m : Message Text)
      → Among r (l ++ m ∷ [])
      → Among r l ⊎ (r ≡ m)
  Among-last r [] m (inl e) = inr e
  Among-last r [] m (inr e) = absurd e
  Among-last r (x ∷ l) m (inl e) = inl (inl e)
  Among-last r (x ∷ l) m (inr h) = elim (Among-last r l m h) [ inl a ↦ inl (inr a) | inr e ↦ inr e ]
