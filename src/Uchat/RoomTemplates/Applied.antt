-- ===== src/Uchat/RoomTemplates/Applied.antt =====
-- uchat/template.go: ApplyChatRoomTemplate for both kinds of types.
use mathlib.Core.Path.{subst}
use zhiya.Prelude.{
  Bool, ◌≡◌, ◌≢◌, ◌↔◌, ◌⊎◌, inl, inr, refl, sym, ap, ◌∙◌, true, false, some, List, map, arith,
  Bool-cases, Option-cases,
}
use zhiya.Uchat.Tables.{Among}
use zhiya.Uchat.RoomMembers.Active.{Among-append_right, Among-append, Among-map, Among-map_inv}
use zhiya.Uchat.RoomTemplates.{
  Link, Links, insert_rows, apply_multi, apply_real, apply_chat_room_template, apply_found,
  room_asked, template_asked, RobotChatRoom,
}
use zhiya.Uchat.RoomMembers.{in_string_slice}
use zhiya.Uchat.WorkTemplate.{WorkTemplate}
use zhiya.Uchat.RoomTemplates.Asked.{
  IsAsked, IsTemplate, room_asked-IsAsked, template_asked-IsTemplate,
}
use zhiya.Uchat.RoomTemplates.Laws.{new_link, LinksAreLawful, QueriesAreLawful}
use zhiya.Uchat.RoomTemplates.Linked.{
  IsLinked, insert_rows-links, end_tx-cases, apply_single-IsLinked,
}

module _ {Text Db : Type 0} (O : Links Text Db) (links : Db → List (Link Text))
    (dec : Discrete Text) (blank : Text) (L : LinksAreLawful O links dec blank) where
  -- Behind the deletion the inserted rows are all the rows of the template and the type.
  insert_rows-IsLinked :
      (rooms : List Text) (cmd_type template room : Text) (db a b : Db)
      → O.delete_links template cmd_type db ≡ some a
      → insert_rows O rooms cmd_type template a ≡ some b
      → IsLinked O links dec blank L template cmd_type room b ↔ Among room rooms
  insert_rows-IsLinked rooms cmd_type template room db a b e i = (
    λ (l, m, t, k, r).
        let (to, from) = insert_rows-links O links dec blank L rooms cmd_type template a b l i in
        elim (Among-append l (links a) (map (new_link cmd_type template) rooms) (to m)) [
          | inl o ↦ absurd (L.delete_links-links template cmd_type db a l e o (t, k))
          | inr o ↦
              let (x, w, q) = Among-map_inv (new_link cmd_type template) l rooms o in
              let u : l.chat_room_serial_no ≡ x =
                unfold new_link in ap Link.chat_room_serial_no q in
              subst (λ y. Among y rooms) (sym u ∙ r) w
        ],
    λ m.
        let l : Link Text = new_link cmd_type template room in
        let (to, from) = insert_rows-links O links dec blank L rooms cmd_type template a b l i in
        (
          l,
          from (
              Among-append_right l (links a) _
                (Among-map (new_link cmd_type template) room rooms m)),
          unfold new_link in refl,
          unfold new_link in refl,
          unfold new_link in refl,
        ),
  )

  apply_multi-IsLinked :
      (rooms : List Text) (cmd_type template room : Text) (db db' : Db)
      → apply_multi O template cmd_type rooms db ≡ (db', true)
      → IsLinked O links dec blank L template cmd_type room db' ↔ Among room rooms
  unfolding apply_multi
  apply_multi-IsLinked rooms cmd_type template room db db' h =
      elim (Option-cases (O.delete_links template cmd_type db)) [
        | inl e ↦ absurd (ground (arith, e))
        | inr (a, e) ↦
            elim (end_tx-cases O links dec blank L a (insert_rows O rooms cmd_type template a) db'
              true (sym (rw (apply_multi, e) refl) ∙ h)) [
                | inl (f, _) ↦ absurd (cc)
                | inr (_, (b, f, g)) ↦
                    let (to, from) = insert_rows-IsLinked rooms cmd_type template room db a b e f in
                    (
                      λ (l, m, t, k, r). to (l, subst (Among l) g m, t, k, r),
                      λ i. let (l, m, t, k, r) = from i in (l, subst (Among l) (sym g) m, t, k, r),
                    )
              ]
      ]

  -- For a type that allows many templates: without an error the chat rooms that are linked to the
  -- template with its type are exactly those that were asked for. With an error the database is as it
  -- was, or all of these links are lost.
  pub apply_multi_outcome :
      (rooms : List Text) (cmd_type template : Text) (db db' : Db) (ok : Bool)
      → apply_multi O template cmd_type rooms db ≡ (db', ok)
      → ((ok ≡ true)
          × ((room : Text)
              → IsLinked O links dec blank L template cmd_type room db' ↔ Among room rooms))
        ⊎ ((ok ≡ false)
            × ((db' ≡ db)
                ⊎ ((room : Text) → ¬ IsLinked O links dec blank L template cmd_type room db')))
  unfolding apply_multi
  apply_multi_outcome rooms cmd_type template db db' true h =
      inl (refl, λ room. apply_multi-IsLinked rooms cmd_type template room db db' h)
  apply_multi_outcome rooms cmd_type template db db' false h =
      elim (Option-cases (O.delete_links template cmd_type db)) [
        | inl e ↦ inr (refl, inl (ground (arith, e)))
        | inr (a, e) ↦
            elim (end_tx-cases O links dec blank L a (insert_rows O rooms cmd_type template a) db'
              false (sym (rw (apply_multi, e) refl) ∙ h)) [
                | inl (_, f) ↦ inr (
                  refl,
                  inr (λ room (l, m, t, k, r).
                      L.delete_links-links template cmd_type db a l e
                        (subst (λ d. Among l (links d)) f m) (t, k)),
                )
                | inr (g, _) ↦ absurd (cc)
              ]
      ]

  -- The chat rooms that the query finds.
  module _ (templates : Db → List (WorkTemplate Text))
      (robot_rooms : Db → List (RobotChatRoom Text)) (W : QueriesAreLawful O templates robot_rooms)
      (allowed : List Text) where
    -- Some chat room of the supplier with this serial number is open and was asked for.
    abbrev pub IsOpen : Text → Text → List Text → Text → Db → Type 0
    IsOpen my_id sub_id rooms room db =
        (c : RobotChatRoom Text) × Among c (robot_rooms db)
        × (c.chat_room_serial_no ≡ room)
        × IsAsked O dec blank allowed my_id sub_id rooms c

    found-IsOpen :
        (my_id sub_id room : Text) (rooms : List Text) (db : Db) (found : List (RobotChatRoom Text))
        → O.find_rooms (room_asked O dec blank allowed my_id sub_id rooms) db ≡ some found
        → Among room (map RobotChatRoom.chat_room_serial_no found)
          ↔ IsOpen my_id sub_id rooms room db
    found-IsOpen my_id sub_id room rooms db found e = (
      λ m.
          let (c, k, q) = Among-map_inv RobotChatRoom.chat_room_serial_no room found m in
          let (to, from) =
            W.find_rooms-some (room_asked O dec blank allowed my_id sub_id rooms) db found c e in
          let (a, t) = to k in
          let (asked, _) = room_asked-IsAsked O dec blank allowed my_id sub_id rooms c in
          (c, a, sym q, asked t),
      λ (c, a, q, t).
          let (to, from) =
            W.find_rooms-some (room_asked O dec blank allowed my_id sub_id rooms) db found c e in
          let (_, asked) = room_asked-IsAsked O dec blank allowed my_id sub_id rooms c in
          subst (λ y. Among y (map RobotChatRoom.chat_room_serial_no found)) q
            (Among-map RobotChatRoom.chat_room_serial_no c found (from (a, asked t))),
    )

    apply_real-IsLinked :
        (my_id sub_id template cmd_type room : Text) (rooms : List Text) (db db' : Db)
        → template ≢ blank
        → apply_real O dec blank allowed my_id sub_id template cmd_type rooms db ≡ (db', true)
        → IsLinked O links dec blank L template cmd_type room db'
          ↔ IsOpen my_id sub_id rooms room db
    unfolding apply_real
    apply_real-IsLinked my_id sub_id template cmd_type room rooms db db' n h =
        elim (Option-cases (O.find_rooms (room_asked O dec blank allowed my_id sub_id rooms) db)) [
          | inl e ↦ absurd (ground (arith, e))
          | inr (found, e) ↦
              elim (apply_single-IsLinked O links dec blank L
                (map RobotChatRoom.chat_room_serial_no found) cmd_type template db db' true n
                (sym (rw (apply_real, e) refl) ∙ h)) [
                  | inl (f, _) ↦ absurd (cc)
                  | inr (_, f) ↦
                      let (to, from) = f room in
                      let (open_to, open_from) = found-IsOpen my_id sub_id room rooms db found e in
                      (λ i. open_to (to i), λ i. from (open_from i))
                ]
        ]

    -- A template that is applied without an error, its id not blank, is one of the supplier's that is
    -- not deleted. The chat rooms that are linked to it with its type are then exactly those that
    -- were asked for, if the type allows many templates, and otherwise exactly those of them that
    -- are open and the supplier's.
    pub apply_chat_room_template-IsLinked :
        (my_id sub_id template : Text) (rooms : List Text) (db db' : Db)
        → template ≢ blank
        → apply_chat_room_template O dec blank allowed my_id sub_id template rooms db ≡ (db', true)
        → (t : WorkTemplate Text) × Among t (templates db)
          × IsTemplate O dec blank allowed my_id sub_id template t
          × (((in_string_slice dec allowed t.cmd_type ≡ true)
                × ((room : Text)
                    → IsLinked O links dec blank L template t.cmd_type room db' ↔ Among room rooms))
              ⊎ ((in_string_slice dec allowed t.cmd_type ≡ false)
                  × ((room : Text)
                      → IsLinked O links dec blank L template t.cmd_type room db'
                        ↔ IsOpen my_id sub_id rooms room db)))
    unfolding apply_chat_room_template apply_found
    apply_chat_room_template-IsLinked my_id sub_id template rooms db db' n h =
        elim (Option-cases
          (O.first_template (template_asked O dec blank allowed my_id sub_id template) db)) [
            | inl e ↦ absurd (ground (arith, e))
            | inr (t, e) ↦
                let (there, asked) =
                  W.first_template-some (template_asked O dec blank allowed my_id sub_id template)
                    db t e in
                let is =
                  template_asked-IsTemplate O dec blank allowed my_id sub_id template t asked in
                let (_, i, _, _) = is in
                let k : apply_found O dec blank allowed my_id sub_id rooms (some t) db
                    ≡ (db', true) =
                  sym (rw (apply_chat_room_template, e) refl) ∙ h in
                (
                  t,
                  there,
                  is,
                  elim (Bool-cases (in_string_slice dec allowed t.cmd_type)) [
                    | inl b ↦ inl (
                      b,
                      λ room. apply_multi-IsLinked rooms t.cmd_type template room db db' (
                          ap (λ x. apply_multi O x t.cmd_type rooms db) (sym i)
                          ∙ sym (rw (apply_found, b) refl)
                          ∙ k),
                    )
                    | inr b ↦ inr (
                      b,
                      λ room.
                          apply_real-IsLinked my_id sub_id template t.cmd_type room rooms db db' n (
                            ap
                              (λ x.
                                apply_real O dec blank allowed my_id sub_id x t.cmd_type rooms db)
                              (sym i)
                            ∙ sym (rw (apply_found, b) refl)
                            ∙ k),
                    )
                  ],
                )
          ]
