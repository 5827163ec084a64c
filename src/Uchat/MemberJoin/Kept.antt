-- ===== src/Uchat/MemberJoin/Kept.antt =====
-- uchat/sync.go: the welcome of a member leaves the tables of members and chat rooms alone.
use mathlib.Core.Logic.{ite}
use zhiya.Prelude.{ℕ, ◌≡◌, inl, inr, refl, ◌∙◌, Bool, Option, none, some, Option-cases}
use zhiya.Uchat.JoinMessage.{
  Message, Messages, Failure, finish, save_created, store_message, send_content,
  send_chat_room_member_text_message,
}

-- The calls on the table of messages do not touch another table.
pub record LeavesTables {Text Db A : Type 0} (Q : Messages Text Db) (view : Db → A) : Type 0 where
  pub create-view :
      (m : Message Text) (db db' : Db) (n : ℕ) → Q.create m db ≡ some (db', n) → view db' ≡ view db
  pub save-view : (m : Message Text) (db db' : Db) → Q.save m db ≡ some db' → view db' ≡ view db
  pub commit-view : (db db' : Db) → Q.commit db ≡ some db' → view db' ≡ view db

module _ {Text Db A : Type 0} (Q : Messages Text Db) (view : Db → A) (leaves : LeavesTables Q view)
    (dec : Discrete Text) (blank type_text : Text) (names links : Text → Bool)
    (drop_names : Text → Text) (put_link : Text → Text → Text) (coupon_link : Text → Option Text)
    (comma_join : Text → Text → Text) (now : ℕ) (hash_id : ℕ → Text) where
  abbrev Views : A → Db × Option Failure → Type 0
  Views a (db, e) = view db ≡ a

  view-finish :
      (db : Db) (o : Option Db)
      → ((tx : Db) → o ≡ some tx → view tx ≡ view db)
      → Views (view db) (
          finish dec blank type_text names links drop_names put_link coupon_link comma_join now Q
            hash_id db o)
  unfolding finish
  view-finish db none t = refl
  view-finish db (some tx) t = elim (Option-cases (Q.commit tx)) [
    | inl e ↦ rw (finish, e) refl
    | inr (db', e) ↦ rw (finish, e) (leaves.commit-view tx db' e ∙ t tx refl)
  ]

  view-save_created :
      (m : Message Text) (db : Db) (o : Option (Db × ℕ))
      → Q.create m db ≡ o
      → Views (view db) (
          save_created dec blank type_text names links drop_names put_link coupon_link comma_join
            now Q hash_id db m o)
  unfolding save_created
  view-save_created m db none e = refl
  view-save_created m db (some (tx, n)) e =
      view-finish db _ (λ tx' s. leaves.save-view _ tx tx' s ∙ leaves.create-view m db tx n e)

  view-store_message :
      (msg room user : Text) (interval : ℕ) (o : Option (Option (Message Text))) (db : Db)
      → Views (view db) (
          store_message dec blank type_text names links drop_names put_link coupon_link comma_join
            now Q hash_id msg room user interval o db)
  unfolding store_message
  view-store_message msg room user interval (some (some m)) db =
      view-finish db _ (λ tx s. leaves.save-view _ db tx s)
  view-store_message msg room user interval (some none) db = view-save_created _ db _ refl
  view-store_message msg room user interval none db = view-save_created _ db _ refl

  ite-Views :
      {P : Type 0} (a : A) (p : Dec P) (r k : Db × Option Failure)
      → Views a r
      → Views a k
      → Views a (ite p r k)
  ite-Views a (yes e) r k h g = h
  ite-Views a (no n) r k h g = g

  view-send_content :
      (room user msg : Text) (interval : ℕ) (db : Db)
      → Views (view db) (
          send_content dec blank type_text names links drop_names put_link coupon_link comma_join
            now Q hash_id room user
            (msg, interval)
            db)
  unfolding send_content
  view-send_content room user msg interval db =
      ite-Views (view db) (dec msg blank) _ _ refl
        (view-store_message msg room user interval (Q.pending room db) db)

  -- Whatever the outcome of the welcome is.
  pub view-send :
      (welcome : Text → Text × ℕ) (default_interval : ℕ) (room user msg : Text) (db : Db)
      → let (db', e) =
          send_chat_room_member_text_message dec blank type_text names links drop_names put_link
            coupon_link comma_join now Q hash_id welcome default_interval room user msg db in
        view db' ≡ view db
  unfolding send_chat_room_member_text_message
  view-send welcome default_interval room user msg db =
      let (content, interval) = ite (dec msg blank) (welcome room) (msg, default_interval) in
      view-send_content room user content interval db
