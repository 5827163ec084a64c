-- ===== src/Uchat/RoomTemplates/Asked.antt =====
-- uchat/template.go: what the conditions of ApplyChatRoomTemplate ask for.
use mathlib.Core.Logic.{ite}
use zhiya.Prelude.{
  ◌≡◌, ◌↔◌, ◌⊎◌, inl, inr, refl, Bool, true, false, ◌&&◌, ◌||◌, ◌==◌, List, arith, Bool-cases,
}
use zhiya.Uchat.Tables.{Among}
use zhiya.Uchat.RoomMembers.{in_string_slice}
use zhiya.Uchat.RoomMembers.Closed.{in_string_slice-Among, Among-in_string_slice}
use zhiya.Uchat.WorkTemplate.{WorkTemplate}
use zhiya.Uchat.RoomTemplates.{Links, RobotChatRoom, of_sub, template_asked, room_asked}

ite-else_false : {P : Type 0} (p : Dec P) (b : Bool) → (ite p b false ≡ true) ↔ (P × (b ≡ true))
ite-else_false (yes e) b = (λ h. (e, h), λ (_, h). h)
ite-else_false (no n) b = (λ h. absurd (cc), λ (e, _). absurd (n e))

ite-then_true : {P : Type 0} (p : Dec P) (b : Bool) → (ite p true b ≡ true) ↔ (P ⊎ (b ≡ true))
ite-then_true (yes e) b = (λ h. inl e, λ h. refl)
ite-then_true (no n) b = (λ h. inr h, λ h. elim h [ inl e ↦ absurd (n e) | inr k ↦ k ])

and_true : (a b : Bool) → ((a && b) ≡ true) ↔ ((a ≡ true) × (b ≡ true))
and_true true b = (λ h. (refl, h), λ (_, h). h)
and_true false b = (λ h. absurd (cc), λ (h, _). absurd (cc))

module _ {Text Db : Type 0} (O : Links Text Db) (dec : Discrete Text) (blank : Text)
    (allowed : List Text) where
  -- Of the sub supplier that was asked for, if there is one.
  abbrev pub IsOfSub : Text → Text → Type 0
  IsOfSub sub_id found = (sub_id ≡ blank) ⊎ (found ≡ sub_id)

  of_sub-IsOfSub :
      (sub_id found : Text)
      → (of_sub O dec blank allowed sub_id found ≡ true) ↔ IsOfSub sub_id found
  unfolding of_sub
  of_sub-IsOfSub sub_id found =
      let (to, from) = ite-then_true (dec sub_id blank) (ite (dec found sub_id) true false) in
      let (in_to, in_from) = ite-else_false (dec found sub_id) true in
      (
        λ h. elim (to h) [ inl e ↦ inl e | inr k ↦ let (e, _) = in_to k in inr e ],
        λ h. elim h [ inl e ↦ from (inl e) | inr e ↦ from (inr (in_from (e, refl))) ],
      )

  -- A chat room of the supplier that is open and was asked for.
  abbrev pub IsAsked : Text → Text → List Text → RobotChatRoom Text → Type 0
  IsAsked my_id sub_id rooms c =
      (c.my_id ≡ my_id)
      × IsOfSub sub_id c.sub_id
      × (c.is_open ≡ true)
      × Among c.chat_room_serial_no rooms

  pub room_asked-IsAsked :
      (my_id sub_id : Text) (rooms : List Text) (c : RobotChatRoom Text)
      → (room_asked O dec blank allowed my_id sub_id rooms c ≡ true) ↔ IsAsked my_id sub_id rooms c
  unfolding room_asked
  room_asked-IsAsked my_id sub_id rooms c =
      let listed : Bool = in_string_slice dec rooms c.chat_room_serial_no in
      let (to, from) =
        ite-else_false (dec c.my_id my_id)
          (of_sub O dec blank allowed sub_id c.sub_id && (c.is_open && listed)) in
      let (sub_to, sub_from) = of_sub-IsOfSub sub_id c.sub_id in
      let (and_to, and_from) =
        and_true (of_sub O dec blank allowed sub_id c.sub_id) (c.is_open && listed) in
      let (open_to, open_from) = and_true c.is_open listed in
      (
        λ h.
            let (e, k) = to h in
            let (s, r) = and_to k in
            let (o, l) = open_to r in
            (e, sub_to s, o, in_string_slice-Among dec rooms c.chat_room_serial_no l),
        λ (e, s, o, m). from (
          e,
          and_from
              (sub_from s, open_from (o, Among-in_string_slice dec rooms c.chat_room_serial_no m)),
        ),
      )

  -- A template of the supplier with the id that was asked for, that is not deleted.
  abbrev pub IsTemplate : Text → Text → Text → WorkTemplate Text → Type 0
  IsTemplate my_id sub_id template t =
      (t.my_id ≡ my_id)
      × (t.work_template_id ≡ template)
      × IsOfSub sub_id t.sub_id
      × ((t.status ≡ 0) ⊎ (t.status ≡ 1))

  pub template_asked-IsTemplate :
      (my_id sub_id template : Text) (t : WorkTemplate Text)
      → template_asked O dec blank allowed my_id sub_id template t ≡ true
      → IsTemplate my_id sub_id template t
  unfolding template_asked
  template_asked-IsTemplate my_id sub_id template t h =
      let status : Bool = (t.status == 0) || (t.status == 1) in
      let sub : Bool = of_sub O dec blank allowed sub_id t.sub_id in
      let (to, _) =
        ite-else_false (dec t.my_id my_id)
          (ite (dec t.work_template_id template) (sub && status) false) in
      let (e, k) = to h in
      let (id_to, _) = ite-else_false (dec t.work_template_id template) (sub && status) in
      let (i, r) = id_to k in
      let (and_to, _) = and_true sub status in
      let (s, w) = and_to r in
      let (sub_to, _) = of_sub-IsOfSub sub_id t.sub_id in
      (
        e,
        i,
        sub_to s,
        elim (Bool-cases (t.status == 0)) [
          | inl z ↦ inl (ground (arith, z))
          | inr z ↦ inr (ground (arith, z, w))
        ],
      )
