-- ===== src/Uchat/JoinMessage/OnePending.antt =====
-- uchat/sync.go: at most one welcome message waits for a chat room.
use mathlib.Core.Logic.{ite}
use mathlib.Core.Path.{subst}
use zhiya.Prelude.{
  ℕ, ◌+◌, ◌≤◌, ◌≡◌, ◌≢◌, inl, inr, refl, sym, ap, ◌∙◌, Bool, false, Option, none, some, List, [],
  ◌∷◌, ◌++◌, arith, if◌then◌else◌, Option-cases,
}
use zhiya.Uchat.Tables.{Among}
use zhiya.Uchat.JoinMessage.{
  Message, Messages, Failure, join_more, new_message, finish, save_created, store_message,
  send_content, send_chat_room_member_text_message,
}
use zhiya.Uchat.JoinMessage.Pending.{
  QueueIsLawful, is_pending, pending_count, pending_count-replace, pending_count-append,
  is_pending-join_more, join_more-id, same_pending, is_pending_other, Among-last,
}

module _ {Text Db : Type 0} (Q : Messages Text Db) (queue : Db → List (Message Text))
    (dec : Discrete Text) (L : QueueIsLawful Q queue dec) where
  -- At most one message waits for the new members of any chat room.
  abbrev pub HasOnePending : Db → Type 0
  HasOnePending db = (room : Text) → pending_count dec room (queue db) ≤ 1

  abbrev pub Keeps : Db × Option Failure → Type 0
  Keeps (db, e) = HasOnePending db

  module _ (blank type_text : Text) (names links : Text → Bool) (drop_names : Text → Text)
      (put_link : Text → Text → Text) (coupon_link : Text → Option Text)
      (comma_join : Text → Text → Text) (now : ℕ) (hash_id : ℕ → Text) where
    finish-Keeps :
        (db : Db) (o : Option Db)
        → HasOnePending db
        → ((tx : Db) → o ≡ some tx → HasOnePending tx)
        → Keeps (
            finish dec blank type_text names links drop_names put_link coupon_link comma_join now Q
              hash_id db o)
    unfolding finish
    finish-Keeps db none h t = h
    finish-Keeps db (some tx) h t = elim (Option-cases (Q.commit tx)) [
      | inl e ↦ rw (finish, e) h
      | inr (db', e) ↦
          rw (finish, e)
            (λ room.
              omega (arith, ap (pending_count dec room) (L.commit-queue tx db' e), t tx refl room))
    ]

    save_created-Keeps :
        (m : Message Text) (o : Option (Db × ℕ)) (db : Db)
        → Q.create m db ≡ o
        → HasOnePending db
        → ((tx tx' : Db) (n : ℕ)
            → Q.create m db ≡ some (tx, n)
            → Q.save (record m { id = n; queue_id = hash_id n }) tx ≡ some tx'
            → HasOnePending tx')
        → Keeps (
            save_created dec blank type_text names links drop_names put_link coupon_link comma_join
              now Q hash_id db m o)
    unfolding save_created
    save_created-Keeps m none db c h t = h
    save_created-Keeps m (some (tx, n)) db c h t = finish-Keeps db _ h (λ tx' s. t tx tx' n c s)

    -- A new version of the row that was found.
    save-HasOnePending :
        (room user msg : Text) (m : Message Text) (db tx : Db)
        → Q.pending room db ≡ some (some m)
        → Q.save
            (join_more dec blank type_text names links drop_names put_link coupon_link comma_join
              now msg user m)
            db
          ≡ some tx
        → HasOnePending db
        → HasOnePending tx
    save-HasOnePending room user msg m db tx f s h other =
        let new : Message Text =
          join_more dec blank type_text names links drop_names put_link coupon_link comma_join now
            msg user m in
        let i : new.id ≡ m.id =
          join_more-id dec names comma_join blank type_text links drop_names put_link coupon_link
            now msg user m in
        let same : pending_count dec other (queue tx) ≡ pending_count dec other (queue db) =
          ap (pending_count dec other) (L.save-queue new db tx s)
          ∙ pending_count-replace dec other new (queue db) (λ r a e.
            is_pending-join_more dec other names comma_join blank type_text links drop_names
              put_link coupon_link now msg user m
            ∙ ap (is_pending dec other) (sym (L.pending-unique room db m r f a (e ∙ i)))) in
        omega (arith, same, h other)

    -- A new row, and the version of it that has its id.
    create-HasOnePending :
        (room user msg : Text) (interval n : ℕ) (db tx tx' : Db)
        → let new =
            new_message dec blank type_text names links drop_names put_link coupon_link comma_join
              now msg room user interval in
          Q.pending room db ≡ some none
          → Q.create new db ≡ some (tx, n)
          → Q.save (record new { id = n; queue_id = hash_id n }) tx ≡ some tx'
          → HasOnePending db
          → HasOnePending tx'
    unfolding new_message
    create-HasOnePending room user msg interval n db tx tx' f c s h other =
        let new : Message Text =
          new_message dec blank type_text names links drop_names put_link coupon_link comma_join now
            msg room user interval in
        let more : queue tx ≡ queue db ++ record new { id = n } ∷ [] =
          L.create-queue new db tx n c in
        let same : pending_count dec other (queue tx') ≡ pending_count dec other (queue tx) =
          ap (pending_count dec other)
            (L.save-queue (record new { id = n; queue_id = hash_id n }) tx tx' s)
          ∙ pending_count-replace dec other (record new { id = n; queue_id = hash_id n }) (queue tx)
              (λ r a e.
                elim (Among-last dec r (queue db) (record new { id = n })
                  (subst (Among r) more a)) [
                    | inl b ↦ absurd (L.create-new new r db tx n c b e)
                    | inr q ↦
                        same_pending dec other room n (hash_id n) new
                        ∙ ap (is_pending dec other) (sym q)
                  ]) in
        let count : pending_count dec other (queue tx)
            ≡ pending_count dec other (queue db)
              + (if is_pending dec other (record new { id = n }) then 1 else 0) =
          ap (pending_count dec other) more
          ∙ pending_count-append dec other (queue db) (record new { id = n }) in
        elim (dec room other) [
          | yes e ↦
              let none_before : pending_count dec other (queue db) ≡ 0 =
                ap (λ t. pending_count dec t (queue db)) (sym e) ∙ L.pending-none room db f in
              ground (arith, same, count, none_before)
          | no k ↦
              let not_this : is_pending dec other (record new { id = n }) ≡ false =
                is_pending_other dec other (record new { id = n }) k in
              ground (arith, same, count, not_this, h other)
        ]

    store_message-Keeps :
        (room user msg : Text) (interval : ℕ) (o : Option (Option (Message Text))) (db : Db)
        → Q.pending room db ≡ o
        → o ≢ none
        → HasOnePending db
        → Keeps (
            store_message dec blank type_text names links drop_names put_link coupon_link comma_join
              now Q hash_id msg room user interval o db)
    unfolding store_message
    store_message-Keeps room user msg interval (some (some m)) db f w h =
        finish-Keeps db _ h (λ tx s. save-HasOnePending room user msg m db tx f s h)
    store_message-Keeps room user msg interval none db f w h = absurd (w refl)
    store_message-Keeps room user msg interval (some none) db f w h =
        save_created-Keeps
          (new_message dec blank type_text names links drop_names put_link coupon_link comma_join
            now msg room user interval)
          _ db refl h
          (λ tx tx' n c s. create-HasOnePending room user msg interval n db tx tx' f c s h)

    ite-Keeps :
        {P : Type 0} (p : Dec P) (r k : Db × Option Failure) → Keeps r → Keeps k → Keeps (ite p r k)
    ite-Keeps (yes e) r k h g = h
    ite-Keeps (no n) r k h g = g

    send_content-Keeps :
        (room user msg : Text) (interval : ℕ) (db : Db)
        → Q.pending room db ≢ none
        → HasOnePending db
        → Keeps (
            send_content dec blank type_text names links drop_names put_link coupon_link comma_join
              now Q hash_id room user
              (msg, interval)
              db)
    unfolding send_content
    send_content-Keeps room user msg interval db w h =
        ite-Keeps (dec msg blank) _ _ h
          (store_message-Keeps room user msg interval (Q.pending room db) db refl w h)

    send_Keeps :
        (welcome : Text → Text × ℕ) (default_interval : ℕ) (room user msg : Text) (db : Db)
        → Q.pending room db ≢ none
        → HasOnePending db
        → Keeps (
            send_chat_room_member_text_message dec blank type_text names links drop_names put_link
              coupon_link comma_join now Q hash_id welcome default_interval room user msg db)
    unfolding send_chat_room_member_text_message
    send_Keeps welcome default_interval room user msg db w h =
        let (content, interval) = ite (dec msg blank) (welcome room) (msg, default_interval) in
        send_content-Keeps room user content interval db w h

    -- Where the query for the message that waits does not fail: however the welcome of a new member
    -- ends, with an error or without one, at most one message waits for the new members of each chat
    -- room, if it was so before.
    pub send_chat_room_member_text_message-HasOnePending :
        (welcome : Text → Text × ℕ) (default_interval : ℕ) (room user msg : Text) (db db' : Db)
        (e : Option Failure)
        → Q.pending room db ≢ none
        → HasOnePending db
        → send_chat_room_member_text_message dec blank type_text names links drop_names put_link
            coupon_link comma_join now Q hash_id welcome default_interval room user msg db
          ≡ (db', e)
        → (other : Text) → pending_count dec other (queue db') ≤ 1
    send_chat_room_member_text_message-HasOnePending welcome default_interval room user msg db db' e
          w h q =
        subst Keeps q (send_Keeps welcome default_interval room user msg db w h)
