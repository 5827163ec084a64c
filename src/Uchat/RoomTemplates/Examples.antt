-- ===== src/Uchat/RoomTemplates/Examples.antt =====
-- uchat/template.go: a table of links in memory, which refuses the chat room 0. Texts are numbers.
use mathlib.Core.Logic.{ite, if_pos, if_neg}
use mathlib.Core.Path.{subst}
use zhiya.Prelude.{
  ◌≡◌, ◌≢◌, ◌↔◌, ◌⊎◌, inl, inr, refl, sym, ap, ◌∙◌, ℕ, Bool, true, false, Option, none, some, List,
  [], ◌∷◌, ◌++◌, map, arith, if◌then◌else◌, Bool-cases, ℕ_discrete, some-eq-some,
}
use zhiya.Uchat.Tables.{Among}
use zhiya.Uchat.RoomMembers.{in_string_slice}
use zhiya.Uchat.RoomTemplates.{
  Link, Links, end_tx, insert_rows, apply_multi, missing_rooms, insert_missing, relink,
  apply_single, apply_chat_room_template, apply_found, apply_real, room_asked, template_asked,
  of_sub, RobotChatRoom,
}
use zhiya.Uchat.RoomTemplates.Laws.{cleared, linked_to, new_link, LinksAreLawful, QueriesAreLawful}
use zhiya.Uchat.RoomTemplates.Applied.{
  IsOpen, apply_multi_outcome, apply_chat_room_template-IsLinked,
}
use zhiya.Uchat.RoomTemplates.Asked.{IsTemplate}
use zhiya.Uchat.WorkTemplate.{WorkTemplate}
use zhiya.Uchat.RoomTemplates.Linked.{IsLinked, apply_single-IsLinked}

unfoldable keep : {A : Type 0} → (A → Bool) → List A → List A
keep f [] = []
keep f (x ∷ l) = let rest = keep f l in if f x then x ∷ rest else rest

keep_cons :
    {A : Type 0} (f : A → Bool) (x : A) (l : List A) → f x ≡ true → keep f (x ∷ l) ≡ x ∷ keep f l
unfolding keep
keep_cons f x l b = rw b refl

keep_skip :
    {A : Type 0} (f : A → Bool) (x : A) (l : List A) → f x ≡ false → keep f (x ∷ l) ≡ keep f l
unfolding keep
keep_skip f x l b = rw b refl

Among-keep :
    {A : Type 0} (f : A → Bool) (a : A) (l : List A) → Among a (keep f l) → Among a l × (f a ≡ true)
unfolding keep
Among-keep f a [] h = absurd h
Among-keep f a (x ∷ l) h = elim (Bool-cases (f x)) [
  | inl b ↦ elim (subst (Among a) (keep_cons f x l b) h) [
    | inl e ↦ (inl e, ap f e ∙ b)
    | inr k ↦ let (m, t) = Among-keep f a l k in (inr m, t)
  ]
  | inr b ↦ let (m, t) = Among-keep f a l (subst (Among a) (keep_skip f x l b) h) in (inr m, t)
]

keep-Among :
    {A : Type 0} (f : A → Bool) (a : A) (l : List A) → Among a l → f a ≡ true → Among a (keep f l)
unfolding keep
keep-Among f a [] h t = absurd h
keep-Among f a (x ∷ l) (inl e) t =
    subst (Among a) (sym (keep_cons f x l (ap f (sym e) ∙ t))) (inl e)
keep-Among f a (x ∷ l) (inr h) t = elim (Bool-cases (f x)) [
  | inl b ↦ subst (Among a) (sym (keep_cons f x l b)) (inr (keep-Among f a l h t))
  | inr b ↦ subst (Among a) (sym (keep_skip f x l b)) (keep-Among f a l h t)
]

unfoldable links_to : ℕ → Link ℕ → Bool
links_to template l = ite (ℕ_discrete l.work_template_id template) true false

unfoldable other_than : ℕ → ℕ → Link ℕ → Bool
other_than template cmd_type l =
    ite (ℕ_discrete l.work_template_id template) (ite (ℕ_discrete l.cmd_type cmd_type) false true)
      true

links_to-true :
    (template : ℕ) (l : Link ℕ) → links_to template l ≡ true → l.work_template_id ≡ template
unfolding links_to
links_to-true template l h = elim (ℕ_discrete l.work_template_id template) [
  | yes e ↦ e
  | no k ↦ absurd (ground (arith, if_neg (ℕ_discrete l.work_template_id template) k true false))
]

links_to-eq :
    (template : ℕ) (l : Link ℕ) → l.work_template_id ≡ template → links_to template l ≡ true
unfolding links_to
links_to-eq template l e = if_pos (ℕ_discrete l.work_template_id template) e true false

other_than-false :
    (template cmd_type : ℕ) (l : Link ℕ)
    → l.work_template_id ≡ template
    → l.cmd_type ≡ cmd_type
    → other_than template cmd_type l ≡ false
unfolding other_than
other_than-false template cmd_type l e f =
    if_pos (ℕ_discrete l.work_template_id template) e _ _
    ∙ if_pos (ℕ_discrete l.cmd_type cmd_type) f false true

unfoldable insert_in : List ℕ → ℕ → ℕ → List (Link ℕ) → Option (List (Link ℕ))
insert_in rooms cmd_type template db =
    if in_string_slice ℕ_discrete rooms 0
    then none
    else some (db ++ map (new_link cmd_type template) rooms)

unfoldable first_of : {A : Type 0} → List A → Option A
first_of [] = none
first_of (x ∷ l) = some x

first_of-some : {A : Type 0} (l : List A) (x : A) → first_of l ≡ some x → Among x l
unfolding first_of
first_of-some [] x h = absurd (cc)
first_of-some (y ∷ l) x h = inl (sym (some-eq-some h))

abbrev template : WorkTemplate ℕ
template = record {
  id = 1;
  work_template_id = 5;
  my_id = 90;
  sub_id = 91;
  name = 1;
  cmd_type = 7;
  cmd_value = 0;
  cmd_params = 0;
  cmd_reply = 0;
  is_default = false;
  status = 0;
}

abbrev templates : List (WorkTemplate ℕ)
templates = record template { my_id = 80 } ∷ record template { status = 2 } ∷ template ∷ []

abbrev robot_room : ℕ → Bool → RobotChatRoom ℕ
robot_room room is_open = record {
  chat_room_serial_no = room;
  is_open = is_open;
  my_id = 90;
  sub_id = 91;
}

-- The chat room 3 is closed, and 4 is of another supplier.
abbrev robot_rooms : List (RobotChatRoom ℕ)
robot_rooms =
    robot_room 2 true
    ∷ robot_room 3 false
    ∷ record (robot_room 4 true) { my_id = 80 }
    ∷ robot_room 8 true
    ∷ []

unfoldable table : Links ℕ (List (Link ℕ))
table = record {
  first_template = λ f db. first_of (keep f templates);
  find_rooms = λ f db. some (keep f robot_rooms);
  delete_links = λ template cmd_type db. some (keep (other_than template cmd_type) db);
  clear_links = λ template db. some (map (cleared ℕ_discrete 0 template) db);
  set_links =
      λ rooms cmd_type template db. some (map (linked_to ℕ_discrete rooms cmd_type template) db);
  find_links = λ template db. some (keep (links_to template) db);
  insert_links = insert_in;
  commit = some;
}

insert_in-some :
    (rooms : List ℕ) (cmd_type template : ℕ) (db db' : List (Link ℕ))
    → insert_in rooms cmd_type template db ≡ some db'
    → db' ≡ db ++ map (new_link cmd_type template) rooms
unfolding insert_in
insert_in-some rooms cmd_type template db db' h =
    elim (Bool-cases (in_string_slice ℕ_discrete rooms 0)) [
      | inl b ↦ absurd (ground (arith, b))
      | inr b ↦ some-eq-some (sym h ∙ rw b refl)
    ]

table-LinksAreLawful : LinksAreLawful table (λ db. db) ℕ_discrete 0
unfolding table
table-LinksAreLawful = record {
  delete_links-links = λ template cmd_type db db' l e m (f, g).
      let (k, t) =
        Among-keep (other_than template cmd_type) l db (subst (Among l) (sym (some-eq-some e)) m) in
      absurd (cc (sym t ∙ other_than-false template cmd_type l f g));
  clear_links-links = λ template db db' e. sym (some-eq-some e);
  set_links-links = λ rooms cmd_type template db db' e. sym (some-eq-some e);
  find_links-links = λ template db found l e. (
    λ m.
        let (k, t) =
          Among-keep (links_to template) l db (subst (Among l) (sym (some-eq-some e)) m) in
        (k, links_to-true template l t),
    λ (k, t).
        subst (Among l) (some-eq-some e)
          (keep-Among (links_to template) l db k (links_to-eq template l t)),
  );
  insert_links-links = insert_in-some;
  commit-links = λ db db' e. sym (some-eq-some e);
}

-- The chat rooms 1 and 2 of the type 7 are linked to the template 5, and 3 to the template 6.
abbrev db : List (Link ℕ)
db = new_link 7 5 1 ∷ new_link 7 5 2 ∷ new_link 7 6 3 ∷ []

-- The chat rooms 2, 3 and 4 are asked for: 1 is cleared, 3 moves and 4 is new.
abbrev after : List (Link ℕ)
after = new_link 7 0 1 ∷ new_link 7 5 2 ∷ new_link 7 5 3 ∷ new_link 7 5 4 ∷ []

apply_single_run : apply_single table ℕ_discrete 5 7 (2 ∷ 3 ∷ 4 ∷ []) db ≡ (after, true)
unfolding apply_single relink insert_missing insert_rows missing_rooms end_tx table keep links_to
    insert_in cleared linked_to new_link in_string_slice ℕ_discrete
apply_single_run = refl

five_is_not_blank : ◌≢◌ {A = ℕ} 5 0
five_is_not_blank h = omega (arith, h)

apply_single-IsLinked_example :
    ((true ≡ false) × (after ≡ db))
    ⊎ ((true ≡ true)
        × ((room : ℕ)
            → IsLinked table (λ d. d) ℕ_discrete 0 table-LinksAreLawful 5 7 room after
              ↔ Among room (2 ∷ 3 ∷ 4 ∷ [])))
apply_single-IsLinked_example =
    apply_single-IsLinked table (λ d. d) ℕ_discrete 0 table-LinksAreLawful (2 ∷ 3 ∷ 4 ∷ []) 7 5 db
      after true five_is_not_blank apply_single_run

table-QueriesAreLawful : QueriesAreLawful table (λ db. templates) (λ db. robot_rooms)
unfolding table
table-QueriesAreLawful = record {
  first_template-some = λ f db t e. Among-keep f t templates (first_of-some (keep f templates) t e);
  find_rooms-some = λ f db l c e. (
    λ m. Among-keep f c robot_rooms (subst (Among c) (sym (some-eq-some e)) m),
    λ (k, t). subst (Among c) (some-eq-some e) (keep-Among f c robot_rooms k t),
  );
}

-- The chat rooms 2, 3, 4 and 8 are asked for, and 2 and 8 are linked.
abbrev linked : List (Link ℕ)
linked = new_link 7 0 1 ∷ new_link 7 5 2 ∷ new_link 7 6 3 ∷ new_link 7 5 8 ∷ []

apply_run :
    apply_chat_room_template table ℕ_discrete 0 [] 90 91 5 (2 ∷ 3 ∷ 4 ∷ 8 ∷ []) db ≡ (linked, true)
unfolding apply_chat_room_template template_asked of_sub apply_found apply_real room_asked first_of
    apply_single relink insert_missing insert_rows missing_rooms end_tx table keep links_to
    insert_in cleared linked_to new_link in_string_slice ℕ_discrete
apply_run = refl

apply_chat_room_template-IsLinked_example :
    (t : WorkTemplate ℕ) × Among t templates
    × IsTemplate table ℕ_discrete 0 [] 90 91 5 t
    × (((in_string_slice ℕ_discrete [] t.cmd_type ≡ true)
          × ((room : ℕ)
              → IsLinked table (λ d. d) ℕ_discrete 0 table-LinksAreLawful 5 t.cmd_type room linked
                ↔ Among room (2 ∷ 3 ∷ 4 ∷ 8 ∷ [])))
        ⊎ ((in_string_slice ℕ_discrete [] t.cmd_type ≡ false)
            × ((room : ℕ)
                → IsLinked table (λ d. d) ℕ_discrete 0 table-LinksAreLawful 5 t.cmd_type room linked
                  ↔ IsOpen table
                      (λ d. d)
                      ℕ_discrete
                      0
                      table-LinksAreLawful
                      (λ d. templates)
                      (λ d. robot_rooms)
                      table-QueriesAreLawful
                      []
                      90
                      91
                      (2 ∷ 3 ∷ 4 ∷ 8 ∷ [])
                      room
                      db)))
apply_chat_room_template-IsLinked_example =
    apply_chat_room_template-IsLinked table (λ d. d) ℕ_discrete 0 table-LinksAreLawful
      (λ d. templates) (λ d. robot_rooms) table-QueriesAreLawful [] 90 91 5 (2 ∷ 3 ∷ 4 ∷ 8 ∷ []) db
      linked five_is_not_blank apply_run

-- The chat room 0 is refused, and the links of 1 and 2 are lost.
abbrev lost : List (Link ℕ)
lost = new_link 7 6 3 ∷ []

lost_run : apply_multi table 5 7 (0 ∷ []) db ≡ (lost, false)
unfolding apply_multi insert_rows end_tx table keep other_than insert_in in_string_slice new_link
    ℕ_discrete
lost_run = refl

apply_multi_outcome_example :
    ((false ≡ true)
      × ((room : ℕ)
          → IsLinked table (λ d. d) ℕ_discrete 0 table-LinksAreLawful 5 7 room lost
            ↔ Among room (0 ∷ [])))
    ⊎ ((false ≡ false)
        × ((lost ≡ db)
            ⊎ ((room : ℕ)
                → ¬ IsLinked table (λ d. d) ℕ_discrete 0 table-LinksAreLawful 5 7 room lost)))
apply_multi_outcome_example =
    apply_multi_outcome table (λ d. d) ℕ_discrete 0 table-LinksAreLawful (0 ∷ []) 7 5 db lost false
      lost_run
