-- ===== src/Uchat/Members/Rows.antt =====
-- uchat/sync.go: when a callback comes to its end, and what it has then read.
use zhiya.Prelude.{◌≡◌, inl, inr, refl, sym, ◌∙◌, Option, none, some, List, arith, Option-cases}
use zhiya.Uchat.Members.{Failure, Payload, and_then, call, with_list, with_data, with_room}

module _ {Db : Type 0} where
  pub and_then-none :
      (r : Db × Option Failure) (f : Db → Db × Option Failure) (db' : Db)
      → and_then r f ≡ (db', none)
      → (m : Db) × (r ≡ (m, none)) × (f m ≡ (db', none))
  unfolding and_then
  and_then-none (m, none) f db' h = (m, refl, h)
  and_then-none (m, some e) f db' h = absurd (cc)

  pub call-none : (o : Option Db) (db db' : Db) → call o db ≡ (db', none) → o ≡ some db'
  unfolding call
  call-none none db db' h = absurd (cc)
  call-none (some m) db db' h = cc

module _ {Text Bytes : Type 0} (decode : Bytes → Option (Payload Text)) {Row : Type 0}
    (decode_list : Text → Option (List Row)) where
  -- The list in `Data`, if the callback gets that far.
  unfoldable pub rows_in : Option Text → Option (List Row)
  rows_in none = none
  rows_in (some d) = decode_list d

  unfoldable pub rows_of : Bytes → Option (List Row)
  rows_of b = elim (decode b) [ none ↦ none | some rst ↦ rows_in rst.data' ]

  with_list-none :
      {Db : Type 0} (o : Option Text) (f : List Row → Db → Db × Option Failure) (db db' : Db)
      → with_list decode_list o f db ≡ (db', none)
      → (list : List Row) × (rows_in o ≡ some list) × (f list db ≡ (db', none))
  unfolding with_list rows_in
  with_list-none none f db db' h = absurd (cc)
  with_list-none (some d) f db db' h = elim (Option-cases (decode_list d)) [
    | inl e ↦ absurd (ground (arith, e))
    | inr (list, e) ↦ (list, e, ground (arith, e))
  ]

  pub with_data-none :
      {Db : Type 0} (b : Bytes) (f : List Row → Db → Db × Option Failure) (db db' : Db)
      → with_data decode decode_list b f db ≡ (db', none)
      → (list : List Row) × (rows_of b ≡ some list) × (f list db ≡ (db', none))
  unfolding with_data rows_of
  with_data-none b f db db' h = elim (Option-cases (decode b)) [
    | inl e ↦ absurd (ground (arith, e))
    | inr (rst, e) ↦
        let (list, q, r) = with_list-none rst.data' f db db' (sym (rw (with_data, e) refl) ∙ h) in
        (list, rw (rows_of, e) q, r)
  ]

  pub with_room-none :
      {Db : Type 0} (b : Bytes) (f : Text → List Row → Db → Db × Option Failure) (db db' : Db)
      → with_room decode decode_list b f db ≡ (db', none)
      → (rst : Payload Text) × (room : Text) × (list : List Row) × (decode b ≡ some rst)
        × (rst.vc_chat_room_serial_no ≡ some room)
        × (rows_of b ≡ some list)
        × (f room list db ≡ (db', none))
  unfolding with_room rows_of
  with_room-none b f db db' h = elim (Option-cases (decode b)) [
    | inl e ↦ absurd (ground (arith, e))
    | inr (rst, e) ↦ elim (Option-cases rst.vc_chat_room_serial_no) [
      | inl g ↦ absurd (ground (arith, e, g))
      | inr (room, g) ↦
          let (list, q, r) =
            with_list-none rst.data' (f room) db db' (sym (rw (with_room, e, g) refl) ∙ h) in
          (rst, room, list, e, g, rw (rows_of, e) q, r)
    ]
  ]
