-- ===== src/Uchat/RoomTemplates/Rows.antt =====
-- uchat/template.go: what the statements of ApplyChatRoomTemplate change in one link, and which chat
-- rooms still need one.
use mathlib.Core.Logic.{if_pos, if_neg}
use mathlib.Core.Path.{subst}
use zhiya.Prelude.{◌≡◌, ◌≢◌, ◌⊎◌, inl, inr, refl, sym, ap, ◌∙◌, false, List, [], ◌∷◌, Bool-cases}
use zhiya.Uchat.Tables.{Among}
use zhiya.Uchat.RoomMembers.{in_string_slice}
use zhiya.Uchat.RoomMembers.Closed.{in_string_slice-Among}
use zhiya.Uchat.RoomTemplates.{Link, missing_rooms}
use zhiya.Uchat.RoomTemplates.Laws.{cleared, linked_to}

module _ {Text : Type 0} (dec : Discrete Text) where
  pub cleared-ne :
      (blank template : Text) (l : Link Text)
      → template ≢ blank
      → Link.work_template_id (cleared dec blank template l) ≢ template
  unfolding cleared
  cleared-ne blank template l n h = elim (dec l.work_template_id template) [
    | yes e ↦ n (sym h ∙ ap Link.work_template_id (if_pos (dec l.work_template_id template) e _ _))
    | no k ↦ k (sym (ap Link.work_template_id (if_neg (dec l.work_template_id template) k _ _)) ∙ h)
  ]

  -- A link is changed for a chat room of the list and the type only.
  pub linked_to-cases :
      (rooms : List Text) (cmd_type template : Text) (l : Link Text)
      → (linked_to dec rooms cmd_type template l ≡ l)
        ⊎ ((l.cmd_type ≡ cmd_type)
            × Among l.chat_room_serial_no rooms
            × (linked_to dec rooms cmd_type template l ≡ record l { work_template_id = template }))
  unfolding linked_to
  linked_to-cases rooms cmd_type template l = elim (dec l.cmd_type cmd_type) [
    | no k ↦ inl (if_neg (dec l.cmd_type cmd_type) k _ _)
    | yes e ↦ elim (Bool-cases (in_string_slice dec rooms l.chat_room_serial_no)) [
      | inl b ↦ inr (
        e,
        in_string_slice-Among dec rooms l.chat_room_serial_no b,
        if_pos (dec l.cmd_type cmd_type) e _ _ ∙ rw b refl,
      )
      | inr b ↦ inl (if_pos (dec l.cmd_type cmd_type) e _ _ ∙ rw b refl)
    ]
  ]

  pub missing_rooms-Among :
      (exists reals : List Text) (room : Text)
      → Among room (missing_rooms dec exists reals)
      → Among room reals
  unfolding missing_rooms
  missing_rooms-Among exists [] room h = h
  missing_rooms-Among exists (x ∷ reals) room h = elim (Bool-cases (in_string_slice dec exists x)) [
    | inl b ↦
        inr (
          missing_rooms-Among exists reals room (subst (Among room) (rw (missing_rooms, b) refl) h))
    | inr b ↦ elim (subst (Among room) (missing_cons exists x reals b) h) [
      | inl e ↦ inl e
      | inr k ↦ inr (missing_rooms-Among exists reals room k)
    ]
  ]
    where
      missing_cons :
          (l : List Text) (y : Text) (r : List Text)
          → in_string_slice dec l y ≡ false
          → missing_rooms dec l (y ∷ r) ≡ y ∷ missing_rooms dec l r
      missing_cons l y r b = rw (missing_rooms, b) refl

  pub Among-missing_rooms :
      (exists reals : List Text) (room : Text)
      → Among room reals
      → in_string_slice dec exists room ≡ false
      → Among room (missing_rooms dec exists reals)
  unfolding missing_rooms
  Among-missing_rooms exists [] room h b = h
  Among-missing_rooms exists (x ∷ reals) room (inl e) b =
      let c : in_string_slice dec exists x ≡ false = ap (in_string_slice dec exists) (sym e) ∙ b in
      rw (missing_rooms, c) (inl e)
  Among-missing_rooms exists (x ∷ reals) room (inr h) b =
      elim (Bool-cases (in_string_slice dec exists x)) [
        | inl c ↦ rw (missing_rooms, c) (Among-missing_rooms exists reals room h b)
        | inr c ↦ rw (missing_rooms, c) (inr (Among-missing_rooms exists reals room h b))
      ]
