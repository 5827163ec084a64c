-- ===== src/Cmd/MQueue/Published.antt =====
-- cmd/mqueue.go: what a round publishes, and what it does not.
use mathlib.Core.Logic.{ite}
use mathlib.Core.List.{append_assoc, append-nil}
use zhiya.Prelude.{
  ℕ, ◌≡◌, ◌≢◌, refl, sym, ap, ◌∙◌, Bool, true, false, Option, none, some, List, [], ◌∷◌, ◌++◌,
  if◌then◌else◌,
}
use zhiya.Cmd.MQueue.{
  MessageQueue, RobotChatRoom, Publication, Round, Next, continues, breaks, publish, and_next,
  publication_of, publish_found, publish_room, publish_rooms, publish_message, publish_messages,
}

-- What is left to publish where the loop goes on, and where it breaks.
abbrev pub Leaves : {A : Type 0} → List A → Next → Type 0
Leaves rest continues = rest ≡ []
Leaves rest breaks = rest ≢ []

module _ {Text : Type 0} where
  -- The publishings are the first ones of those that are due: all where the loop goes on, and not
  -- all where it breaks.
  abbrev pub IsPublished : Round Text → List (Publication Text) → Round Text × Next → Type 0
  IsPublished s due (s', n) =
      (rest : List (Publication Text)) × (s.published ++ due ≡ s'.published ++ rest) × Leaves rest n

  append-ne_nil : (l k : List (Publication Text)) → l ≢ [] → l ++ k ≢ []
  append-ne_nil [] k n e = n refl
  append-ne_nil (x ∷ l) k n e = absurd (cc)

  and_next-IsPublished :
      (s : Round Text) (r : Round Text × Next) (f : Round Text → Round Text × Next)
      (due more : List (Publication Text))
      → IsPublished s due r
      → ((t : Round Text) → IsPublished t more (f t))
      → IsPublished s (due ++ more) (and_next r f)
  unfolding and_next
  and_next-IsPublished s (t, continues) f due more (rest, e, q) h =
      let (left, g, p) = h t in
      (
        left,
        sym (append_assoc s.published due more)
            ∙ ap (λ l. l ++ more) (e ∙ ap (◌++◌ t.published) q ∙ append-nil t.published)
            ∙ g,
        p,
      )
  and_next-IsPublished s (t, breaks) f due more (rest, e, q) h = (
    rest ++ more,
    sym (append_assoc s.published due more)
        ∙ ap (λ l. l ++ more) e
        ∙ append_assoc t.published rest more,
    append-ne_nil rest more q,
  )

  publish-IsPublished :
      (p : Publication Text) (s : Round Text) (a : List Bool)
      → s.answers ≡ a
      → IsPublished s (p ∷ []) (publish p s)
  unfolding publish
  publish-IsPublished p s [] e = rw (publish, e) ([], sym (append-nil _), refl)
  publish-IsPublished p s (true ∷ a) e = rw (publish, e) ([], sym (append-nil _), refl)
  publish-IsPublished p s (false ∷ a) e = rw (publish, e) (p ∷ [], refl, λ q. absurd (cc))

  nothing-IsPublished : (s : Round Text) → IsPublished s [] (s, continues)
  nothing-IsPublished s = ([], refl, refl)

  ite-IsPublished :
      {P : Type 0} (s : Round Text) (p : Dec P) (l : List (Publication Text))
      (r : Round Text × Next)
      → IsPublished s l r
      → IsPublished s (ite p [] l) (ite p (s, continues) r)
  ite-IsPublished s (yes e) l r h = nothing-IsPublished s
  ite-IsPublished s (no n) l r h = h

module _ {Text : Type 0} (dec : Discrete Text) (blank : Text) (to_int64 : Text → ℕ)
    (text_of : List ℕ → Text) (replace : Text → Text → Text → Text) (trim_slash : Text → Text)
    (product_key my_key sub_key : Text) (split : Text → List Text) (trim : Text → Text)
    (room_of : Text → Option (RobotChatRoom Text)) (can_save : MessageQueue Text → Bool) where
  -- What is due for one chat room: nothing for a blank name, nor where no robot serves it.
  unfoldable pub due_found :
      MessageQueue Text → Text → Option (RobotChatRoom Text) → List (Publication Text)
  due_found msg room none = []
  due_found msg room (some r) =
      publication_of dec blank to_int64 text_of replace trim_slash product_key my_key sub_key msg
        room r
      ∷ []

  unfoldable pub due_room : MessageQueue Text → Text → List (Publication Text)
  due_room msg room = ite (dec room blank) [] (due_found msg room (room_of room))

  unfoldable pub due_rooms : MessageQueue Text → List Text → List (Publication Text)
  due_rooms msg [] = []
  due_rooms msg (room ∷ rooms) = due_room msg (trim room) ++ due_rooms msg rooms

  unfoldable pub due : List (MessageQueue Text) → List (Publication Text)
  due [] = []
  due (msg ∷ msgs) =
      (if can_save msg then due_rooms msg (split msg.chat_room_serial_no_list) else []) ++ due msgs

  abbrev message : MessageQueue Text → Round Text → Round Text × Next
  message msg s =
      publish_message dec blank to_int64 text_of replace trim_slash product_key my_key sub_key split
        trim room_of can_save msg s

  abbrev messages : List (MessageQueue Text) → Round Text → Round Text × Next
  messages msgs s =
      publish_messages dec blank to_int64 text_of replace trim_slash product_key my_key sub_key
        split trim room_of can_save msgs s

  found-IsPublished :
      (msg : MessageQueue Text) (room : Text) (o : Option (RobotChatRoom Text)) (s : Round Text)
      → IsPublished s (due_found msg room o) (
          publish_found dec blank to_int64 text_of replace trim_slash product_key my_key sub_key
            split trim room_of can_save msg room o s)
  unfolding publish_found due_found
  found-IsPublished msg room none s = nothing-IsPublished s
  found-IsPublished msg room (some r) s = publish-IsPublished _ s s.answers refl

  room-IsPublished :
      (msg : MessageQueue Text) (room : Text) (s : Round Text)
      → IsPublished s (due_room msg room) (
          publish_room dec blank to_int64 text_of replace trim_slash product_key my_key sub_key
            split trim room_of can_save msg room s)
  unfolding publish_room due_room
  room-IsPublished msg room s =
      ite-IsPublished s (dec room blank) _ _ (found-IsPublished msg room (room_of room) s)

  rooms-IsPublished :
      (msg : MessageQueue Text) (rooms : List Text) (s : Round Text)
      → IsPublished s (due_rooms msg rooms) (
          publish_rooms dec blank to_int64 text_of replace trim_slash product_key my_key sub_key
            split trim room_of can_save msg rooms s)
  unfolding publish_rooms due_rooms
  rooms-IsPublished msg [] s = nothing-IsPublished s
  rooms-IsPublished msg (room ∷ rooms) s =
      and_next-IsPublished s _ _ (due_room msg (trim room)) (due_rooms msg rooms)
        (room-IsPublished msg (trim room) s) (λ t. rooms-IsPublished msg rooms t)

  message-IsPublished :
      (msg : MessageQueue Text) (b : Bool) (s : Round Text)
      → can_save msg ≡ b
      → IsPublished s
          (if b then due_rooms msg (split msg.chat_room_serial_no_list) else [])
          (message msg s)
  unfolding publish_message
  message-IsPublished msg true s e =
      rw (publish_message, e)
        (rooms-IsPublished msg (split msg.chat_room_serial_no_list)
          (record s { saved = s.saved ++ record msg { send_status = 1 } ∷ [] }))
  message-IsPublished msg false s e = rw (publish_message, e) (nothing-IsPublished s)

  -- However the broker answers, a round publishes for the messages whose rows can be stored, in
  -- their order, what is due for each of their chat rooms that is not blank and that a robot
  -- serves: everything where the loop goes on, and a beginning of it, but not everything, where the
  -- loop breaks.
  pub publish_messages-IsPublished :
      (msgs : List (MessageQueue Text)) (s : Round Text)
      → IsPublished s (due msgs) (
          publish_messages dec blank to_int64 text_of replace trim_slash product_key my_key sub_key
            split trim room_of can_save msgs s)
  unfolding publish_messages due
  publish_messages-IsPublished [] s = nothing-IsPublished s
  publish_messages-IsPublished (msg ∷ msgs) s =
      and_next-IsPublished s _ _ _ (due msgs) (message-IsPublished msg (can_save msg) s refl)
        (λ t. publish_messages-IsPublished msgs t)
