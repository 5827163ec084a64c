-- ===== src/Apis/RobotJoin/Examples.antt =====
-- Runs: a database is its table, and the query looks at row 1 alone.
use mathlib.Core.Path.{subst}
use zhiya.Prelude.{
  ℕ, ◌≡◌, ◌⊎◌, inl, inr, refl, sym, ap, ◌∙◌, Bool, true, false, ◌&&◌, Option, none, some, List, [],
  ◌∷◌, ◌==◌, arith, Bool-cases, if◌then◌else◌, ℕ_discrete, some-eq-some,
}
use zhiya.Apis.RobotJoin.{
  RobotJoin, return_data, open_chat_room, delete_robot_join, open_selected, open_commit, open_loop,
  select_rows, set_status_open,
}
use zhiya.Apis.RobotJoin.Transitions.{
  AreOpenable, Changes, SavesRow, FindsRows, open_chat_room-Changes, open_chat_room_marks,
  delete_robot_join-Changes,
}

abbrev Table : Type 0
Table = ℕ → Option (RobotJoin ℕ)

abbrev is_open_row : RobotJoin ℕ → Bool
is_open_row v = (v.id == 1) && (v.status == 0)

abbrev found_row : Option (RobotJoin ℕ) → Option (List (RobotJoin ℕ))
found_row none = some []
found_row (some v) = if is_open_row v then some (v ∷ []) else some []

abbrev find_row : Table → ℕ → List ℕ → Option (List (RobotJoin ℕ))
find_row db my_id logs = found_row (db 1)

abbrev save_row : RobotJoin ℕ → Table → Option Table
save_row c db = some (λ i. if c.id == i then some c else db i)

abbrev row_of : Table → ℕ → Option (RobotJoin ℕ)
row_of db i = db i

abbrev pulls : List ℕ → Bool
pulls logs = true

abbrev commits : Table → Bool
commits db = true

abbrev joined : RobotJoin ℕ
joined = record { id = 1; my_id = 8; log_serial_no = 70; status = 0 }

abbrev table : Table
table i = if 1 == i then some joined else none

saves : SavesRow ℕ_discrete 0 find_row save_row commits row_of
saves c db tx h i = ap (λ (d : Table). d i) (sym (some-eq-some h))

finds_in :
    (o : Option (RobotJoin ℕ)) (db : Table) (vs : List (RobotJoin ℕ))
    → db 1 ≡ o
    → found_row o ≡ some vs
    → AreOpenable (row_of db) vs
finds_in none db vs e h =
    let nothing : [] ≡ vs = some-eq-some h in subst (AreOpenable (row_of db)) nothing tt
finds_in (some v) db vs e h = elim (Bool-cases (is_open_row v)) [
  | inl yes_open ↦
      let listed : v ∷ [] ≡ vs = some-eq-some (sym (rw (found_row, yes_open) refl) ∙ h) in
      let one : v.id ≡ 1 = ground arith in
      let unhandled : v.status ≡ 0 = ground arith in
      subst (AreOpenable (row_of db)) listed ((omega arith, unhandled, ap db one ∙ e), tt)
  | inr closed ↦
      let nothing : [] ≡ vs = some-eq-some (sym (rw (found_row, closed) refl) ∙ h) in
      subst (AreOpenable (row_of db)) nothing tt
]

finds : FindsRows ℕ_discrete 0 find_row save_row commits row_of
finds db my_id logs vs h = finds_in (db 1) db vs refl h

open_chat_room_example :
    ((open_chat_room ℕ_discrete 0 find_row save_row commits pulls table 8 (70 ∷ [])).0 ≡ table)
    ⊎ (((open_chat_room ℕ_discrete 0 find_row save_row commits pulls table 8 (70 ∷ [])).1
          ≡ return_data)
        × Changes 1 (row_of table 1) (
            row_of
              (open_chat_room ℕ_discrete 0 find_row save_row commits pulls table 8 (70 ∷ [])).0
              1))
open_chat_room_example =
    open_chat_room-Changes ℕ_discrete 0 find_row save_row commits row_of saves finds pulls table 8
      (70 ∷ []) 1

delete_robot_join_example :
    ((delete_robot_join ℕ_discrete 0 find_row save_row commits table 8 (70 ∷ [])).0 ≡ table)
    ⊎ (((delete_robot_join ℕ_discrete 0 find_row save_row commits table 8 (70 ∷ [])).1
          ≡ return_data)
        × Changes 2 (row_of table 1) (
            row_of
              (delete_robot_join ℕ_discrete 0 find_row save_row commits table 8 (70 ∷ [])).0
              1))
delete_robot_join_example =
    delete_robot_join-Changes ℕ_discrete 0 find_row save_row commits row_of saves finds table 8
      (70 ∷ []) 1

answers_data :
    (open_chat_room ℕ_discrete 0 find_row save_row commits pulls table 8 (70 ∷ [])).1 ≡ return_data
unfolding open_chat_room open_selected open_commit open_loop select_rows set_status_open ℕ_discrete
answers_data = refl

finds_joined :
    select_rows ℕ_discrete 0 find_row save_row commits table 8 (70 ∷ [])
    ≡ (some (joined ∷ []), return_data)
unfolding select_rows ℕ_discrete
finds_joined = refl

open_chat_room_marks_example :
    ((end : Table) × (commits end ≡ false)
      × ((open_chat_room ℕ_discrete 0 find_row save_row commits pulls table 8 (70 ∷ [])).0 ≡ table))
    ⊎ (row_of (open_chat_room ℕ_discrete 0 find_row save_row commits pulls table 8 (70 ∷ [])).0 1
        ≡ some (record joined { status = 1 }))
open_chat_room_marks_example =
    open_chat_room_marks ℕ_discrete 0 find_row save_row commits row_of saves finds pulls table 8
      (70 ∷ []) (joined ∷ []) 0 joined answers_data finds_joined refl
