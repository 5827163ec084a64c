-- ===== src/Uchat/RoomTemplates/Linked.antt =====
-- uchat/template.go: which chat rooms ApplyChatRoomTemplate links to a template.
use mathlib.Core.Path.{subst}
use zhiya.Prelude.{
  ◌≡◌, ◌≢◌, ◌↔◌, ◌⊎◌, inl, inr, refl, sym, ap, ◌∙◌, Bool, true, false, Option, none, some, List, [],
  ◌∷◌, ◌++◌, map, arith, Bool-cases, Option-cases,
}
use zhiya.Uchat.Tables.{Among}
use zhiya.Uchat.RoomMembers.{in_string_slice}
use zhiya.Uchat.RoomMembers.Active.{
  Among-append_left, Among-append_right, Among-append, Among-map, Among-map_inv,
}
use zhiya.Uchat.RoomMembers.Closed.{in_string_slice-Among}
use zhiya.Uchat.RoomTemplates.{
  Link, Links, end_tx, insert_rows, missing_rooms, insert_missing, relink, apply_single,
}
use zhiya.Uchat.RoomTemplates.Laws.{cleared, linked_to, new_link, LinksAreLawful}
use zhiya.Uchat.RoomTemplates.Rows.{
  cleared-ne, linked_to-cases, missing_rooms-Among, Among-missing_rooms,
}

module _ {Text Db : Type 0} (O : Links Text Db) (links : Db → List (Link Text))
    (dec : Discrete Text) (blank : Text) (L : LinksAreLawful O links dec blank) where
  -- A row links the chat room to the template, with its type.
  abbrev pub IsLinked : Text → Text → Text → Db → Type 0
  IsLinked template cmd_type room db =
      (l : Link Text) × Among l (links db)
      × (l.work_template_id ≡ template)
      × (l.cmd_type ≡ cmd_type)
      × (l.chat_room_serial_no ≡ room)

  pub insert_rows-links :
      (rooms : List Text) (cmd_type template : Text) (db db' : Db) (l : Link Text)
      → insert_rows O rooms cmd_type template db ≡ some db'
      → Among l (links db') ↔ Among l (links db ++ map (new_link cmd_type template) rooms)
  unfolding insert_rows
  insert_rows-links [] cmd_type template db db' l h =
      let e : db ≡ db' = cc in
      (
        λ a. Among-append_left l (links db) [] (subst (λ d. Among l (links d)) (sym e) a),
        λ a. elim (Among-append l (links db) [] a) [
          | inl b ↦ subst (λ d. Among l (links d)) e b
          | inr b ↦ absurd b
        ],
      )
  insert_rows-links (x ∷ rooms) cmd_type template db db' l h =
      let e = L.insert_links-links (x ∷ rooms) cmd_type template db db' h in
      (λ a. subst (Among l) e a, λ a. subst (Among l) (sym e) a)

  -- After the first two statements the rows of the template are those of chat rooms of the list.
  set_links-Among :
      (reals : List Text) (cmd_type template : Text) (db a b : Db) (l : Link Text)
      → template ≢ blank
      → O.clear_links template db ≡ some a
      → O.set_links reals cmd_type template a ≡ some b
      → Among l (links b)
      → l.work_template_id ≡ template
      → (l.cmd_type ≡ cmd_type) × Among l.chat_room_serial_no reals
  set_links-Among reals cmd_type template db a b l n c s m t =
      let (y, k, e) =
        Among-map_inv (linked_to dec reals cmd_type template) l (links a)
          (subst (Among l) (L.set_links-links reals cmd_type template a b s) m) in
      elim (linked_to-cases dec reals cmd_type template y) [
        | inl same ↦
            let (z, i, f) =
              Among-map_inv (cleared dec blank template) y (links db)
                (subst (Among y) (L.clear_links-links template db a c) k) in
            absurd (
              cleared-ne dec blank template z n (ap Link.work_template_id (sym (e ∙ same ∙ f)) ∙ t))
        | inr (g, i, f) ↦ (
          ap Link.cmd_type (e ∙ f) ∙ g,
          subst (λ r. Among r reals) (sym (ap Link.chat_room_serial_no (e ∙ f))) i,
        )
      ]

  insert_missing-IsLinked :
      (reals : List Text) (cmd_type template room : Text) (db a b d : Db)
      → template ≢ blank
      → O.clear_links template db ≡ some a
      → O.set_links reals cmd_type template a ≡ some b
      → insert_missing O dec template cmd_type reals b ≡ some d
      → IsLinked template cmd_type room d ↔ Among room reals
  unfolding insert_missing
  insert_missing-IsLinked reals cmd_type template room db a b d n c s h =
      elim (Option-cases (O.find_links template b)) [
        | inl e ↦ absurd (ground (arith, e))
        | inr (found, e) ↦
            let new : List Text = missing_rooms dec (map Link.chat_room_serial_no found) reals in
            let i : insert_rows O new cmd_type template b ≡ some d =
              sym (rw (insert_missing, e) refl) ∙ h in
            (
              λ (l, m, t, k, r).
                  let (to, from) = insert_rows-links new cmd_type template b d l i in
                  elim (Among-append l (links b) (map (new_link cmd_type template) new) (to m)) [
                    | inl o ↦
                        let (q, w) = set_links-Among reals cmd_type template db a b l n c s o t in
                        subst (λ x. Among x reals) r w
                    | inr o ↦
                        let (x, w, q) = Among-map_inv (new_link cmd_type template) l new o in
                        let u : l.chat_room_serial_no ≡ x =
                          unfold new_link in ap Link.chat_room_serial_no q in
                        subst (λ y. Among y reals) (sym u ∙ r)
                          (missing_rooms-Among dec (map Link.chat_room_serial_no found) reals x w)
                  ],
              λ m.
                  elim (Bool-cases
                    (in_string_slice dec (map Link.chat_room_serial_no found) room)) [
                      | inl v ↦
                          let (l, o, r) = Among-map_inv Link.chat_room_serial_no room found (
                            in_string_slice-Among dec (map Link.chat_room_serial_no found) room
                              v) in
                          let (to, from) = L.find_links-links template b found l e in
                          let (p, t) = to o in
                          let (q, w) = set_links-Among reals cmd_type template db a b l n c s p t in
                          let (there, back) = insert_rows-links new cmd_type template b d l i in
                          (l, back (Among-append_left l (links b) _ p), t, q, sym r)
                      | inr v ↦
                          let l : Link Text = new_link cmd_type template room in
                          let (there, back) = insert_rows-links new cmd_type template b d l i in
                          (
                            l,
                            back (
                                Among-append_right l (links b) _ (
                                  Among-map (new_link cmd_type template) room new (
                                    Among-missing_rooms dec (map Link.chat_room_serial_no found)
                                      reals room m v))),
                            unfold new_link in refl,
                            unfold new_link in refl,
                            unfold new_link in refl,
                          )
                    ],
            )
      ]

  relink-IsLinked :
      (reals : List Text) (cmd_type template room : Text) (db d : Db)
      → template ≢ blank
      → relink O dec template cmd_type reals db ≡ some d
      → IsLinked template cmd_type room d ↔ Among room reals
  unfolding relink
  relink-IsLinked reals cmd_type template room db d n h =
      elim (Option-cases (O.clear_links template db)) [
        | inl e ↦ absurd (ground (arith, e))
        | inr (a, e) ↦ elim (Option-cases (O.set_links reals cmd_type template a)) [
          | inl f ↦ absurd (ground (arith, e, f))
          | inr (b, f) ↦
              insert_missing-IsLinked reals cmd_type template room db a b d n e f
                (sym (rw (relink, e, f) refl) ∙ h)
        ]
      ]

  pub end_tx-cases :
      (db : Db) (o : Option Db) (db' : Db) (ok : Bool)
      → end_tx O db o ≡ (db', ok)
      → ((ok ≡ false) × (db' ≡ db))
        ⊎ ((ok ≡ true) × ((tx : Db) × (o ≡ some tx) × (links db' ≡ links tx)))
  unfolding end_tx
  end_tx-cases db none db' ok h = inl (cc, cc)
  end_tx-cases db (some tx) db' ok h = elim (Option-cases (O.commit tx)) [
    | inl e ↦ inl (ground (arith, e), ground (arith, e))
    | inr (d, e) ↦
        let q : db' ≡ d = ground (arith, e) in
        inr (ground (arith, e), (tx, refl, ap links q ∙ L.commit-links tx d e))
  ]

  -- For a type that allows one template: an error leaves the database as it was, and without an
  -- error the chat rooms that are linked to the template and its type are exactly those of
  -- the list, which the query found. The id of the template is not blank.
  pub apply_single-IsLinked :
      (reals : List Text) (cmd_type template : Text) (db db' : Db) (ok : Bool)
      → template ≢ blank
      → apply_single O dec template cmd_type reals db ≡ (db', ok)
      → ((ok ≡ false) × (db' ≡ db))
        ⊎ ((ok ≡ true) × ((room : Text) → IsLinked template cmd_type room db' ↔ Among room reals))
  unfolding apply_single
  apply_single-IsLinked reals cmd_type template db db' ok n h =
      elim (end_tx-cases db (relink O dec template cmd_type reals db) db' ok h) [
        | inl r ↦ inl r
        | inr (e, (tx, f, g)) ↦ inr (
          e,
          λ room.
              let (to, from) = relink-IsLinked reals cmd_type template room db tx n f in
              (
                λ (l, m, t, k, r). to (l, subst (Among l) g m, t, k, r),
                λ i. let (l, m, t, k, r) = from i in (l, subst (Among l) (sym g) m, t, k, r),
              ),
        )
      ]
