-- ===== src/Uchat/JoinMessage/Examples.antt =====
-- uchat/sync.go: the theorem at a table that has room for one message. Texts are numbers; the text 0
-- is blank, and every welcome names the new members.
use mathlib.Core.Path.{subst}
use zhiya.Prelude.{
  ℕ, ◌+◌, ◌≤◌, ◌≡◌, ◌≢◌, inl, inr, refl, sym, ap, ◌∙◌, Bool, true, false, Option, none, some, List,
  [], ◌∷◌, ◌++◌, map, arith, if◌then◌else◌, Bool-cases, some-eq-some, ℕ_discrete, dec_lt,
}
use zhiya.Uchat.Tables.{Among}
use zhiya.Uchat.JoinMessage.{
  Message, Messages, Failure, send_chat_room_member_text_message, send_content, store_message,
  save_created, finish, new_message, join_more, content_of, link_of,
}
use zhiya.Uchat.JoinMessage.Pending.{QueueIsLawful, is_pending, pending_count, replace_message}
use zhiya.Uchat.JoinMessage.OnePending.{
  HasOnePending, send_chat_room_member_text_message-HasOnePending,
}

abbrev queue : Option (Message ℕ) → List (Message ℕ)
queue none = []
queue (some m) = m ∷ []

unfoldable pending_in : ℕ → Option (Message ℕ) → Option (Message ℕ)
pending_in room none = none
pending_in room (some m) = if is_pending ℕ_discrete room m then some m else none

unfoldable create_in : Message ℕ → Option (Message ℕ) → Option (Option (Message ℕ) × ℕ)
create_in m none = some (some (record m { id = 1 }), 1)
create_in m (some r) = none

unfoldable save_in : Message ℕ → Option (Message ℕ) → Option (Option (Message ℕ))
save_in m none = some none
save_in m (some r) = some (some (replace_message m r))

unfoldable table : Messages ℕ (Option (Message ℕ))
table = record {
  pending = λ room db. some (pending_in room db);
  create = create_in;
  save = save_in;
  commit = some;
}

pending_in-some :
    (room : ℕ) (db : Option (Message ℕ)) (m : Message ℕ) → pending_in room db ≡ some m → db ≡ some m
unfolding pending_in
pending_in-some room none m h = absurd (cc)
pending_in-some room (some r) m h = elim (Bool-cases (is_pending ℕ_discrete room r)) [
  | inl e ↦ sym (rw e refl) ∙ h
  | inr e ↦ absurd (ground (arith, e))
]

pending_in-none :
    (room : ℕ) (db : Option (Message ℕ))
    → pending_in room db ≡ none
    → pending_count ℕ_discrete room (queue db) ≡ 0
unfolding pending_in pending_count
pending_in-none room none h = refl
pending_in-none room (some r) h = elim (Bool-cases (is_pending ℕ_discrete room r)) [
  | inl e ↦ absurd (ground (arith, e))
  | inr e ↦ ground (arith, e)
]

Among-queue : (db : Option (Message ℕ)) (m : Message ℕ) → db ≡ some m → Among m (queue db)
Among-queue db m e = subst (λ d. Among m (queue d)) (sym e) (inl refl)

queue-Among : (db : Option (Message ℕ)) (m r : Message ℕ) → db ≡ some m → Among r (queue db) → r ≡ m
queue-Among db m r e a = elim (subst (λ d. Among r (queue d)) e a) [ inl q ↦ q | inr q ↦ absurd q ]

create_in-queue :
    (m : Message ℕ) (db db' : Option (Message ℕ)) (n : ℕ)
    → create_in m db ≡ some (db', n)
    → (queue db' ≡ queue db ++ record m { id = n } ∷ []) × (db ≡ none)
unfolding create_in
create_in-queue m none db' n h =
    let e : db' ≡ some (record m { id = 1 }) = cc in
    let i : n ≡ 1 = cc in (ap queue e ∙ ap (λ k. record m { id = k } ∷ []) (sym i), refl)
create_in-queue m (some r) db' n h = absurd (cc)

save_in-queue :
    (m : Message ℕ) (db db' : Option (Message ℕ))
    → save_in m db ≡ some db'
    → queue db' ≡ map (replace_message m) (queue db)
unfolding save_in
save_in-queue m none db' h = ap queue (sym (some-eq-some h))
save_in-queue m (some r) db' h = ap queue (sym (some-eq-some h))

table-QueueIsLawful : QueueIsLawful table queue ℕ_discrete
unfolding table
table-QueueIsLawful = record {
  pending-some = λ room db m h. Among-queue db m (pending_in-some room db m (some-eq-some h));
  pending-unique =
      λ room db m r h a e. queue-Among db m r (pending_in-some room db m (some-eq-some h)) a;
  pending-none = λ room db h. pending_in-none room db (some-eq-some h);
  create-queue = λ m db db' n h. let (e, f) = create_in-queue m db db' n h in e;
  create-new = λ m r db db' n h a e.
      let (g, f) = create_in-queue m db db' n h in absurd (subst (λ d. Among r (queue d)) f a);
  save-queue = λ m db db' h. save_in-queue m db db' h;
  commit-queue = λ db db' h. ap queue (sym (some-eq-some h));
}

abbrev always : ℕ → Bool
always t = true

abbrev never : ℕ → Bool
never t = false

abbrev same : ℕ → ℕ
same t = t

abbrev link : ℕ → Option ℕ
link room = none

abbrev welcome : ℕ → ℕ × ℕ
welcome room = (6, 60)

-- Two members that join: the second one is added to the message of the first one.
abbrev send : ℕ → Option (Message ℕ) → Option (Message ℕ) × Option Failure
send user db =
    send_chat_room_member_text_message ℕ_discrete 0 2001 always never same ◌+◌ link ◌+◌ 100 table
      same welcome 60 7 user 0 db

abbrev waiting : ℕ → Message ℕ
waiting users = record {
  id = 1;
  queue_id = 1;
  chat_room_serial_no_list = 7;
  chat_room_count = 1;
  msg_type = 2001;
  is_hit = true;
  weixin_serial_no = users;
  msg_content = 6;
  send_type = 10;
  send_status = 0;
  send_time = 160;
}

send_run : send 3 none ≡ (some (waiting 3), none)
unfolding send_chat_room_member_text_message send_content store_message save_created finish
    new_message join_more content_of link_of table pending_in create_in save_in is_pending
    replace_message ℕ_discrete dec_lt
send_run = refl

send_again : send 4 (some (waiting 3)) ≡ (some (waiting 7), none)
unfolding send_chat_room_member_text_message send_content store_message save_created finish
    new_message join_more content_of link_of table pending_in create_in save_in is_pending
    replace_message ℕ_discrete dec_lt
send_again = refl

query_works : Messages.pending table 7 (some (waiting 3)) ≢ none
unfolding table
query_works e = cc

one_pending : HasOnePending table queue ℕ_discrete table-QueueIsLawful (some (waiting 3))
unfolding pending_count is_pending
one_pending room = ground arith

send_chat_room_member_text_message-HasOnePending_example :
    pending_count ℕ_discrete 7 (queue (some (waiting 7))) ≤ 1
send_chat_room_member_text_message-HasOnePending_example =
    send_chat_room_member_text_message-HasOnePending table queue ℕ_discrete table-QueueIsLawful 0
      2001 always never same ◌+◌ link ◌+◌ 100 same welcome 60 7 4 0 (some (waiting 3))
      (some (waiting 7)) none query_works one_pending send_again 7
