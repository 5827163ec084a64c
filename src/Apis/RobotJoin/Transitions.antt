-- ===== src/Apis/RobotJoin/Transitions.antt =====
-- models/robot_join.go and apis/api_v2.go: a handler does all of its changes or none, and a change
-- takes a row from status 0.
use mathlib.Core.Logic.{if_pos, if_neg}
use mathlib.Core.Path.{subst}
use zhiya.Prelude.{
  ℕ, zero, suc, ◌<◌, ◌≡◌, ◌≢◌, ◌⊎◌, inl, inr, refl, sym, ap, ◌∙◌, Bool, true, false, Option, none,
  some, List, [], ◌∷◌, ◌++◌, ◌==◌, arith, Option-cases, Bool-cases, if◌then◌else◌, some-eq-some,
  get_elem?,
}
use zhiya.Apis.RobotJoin.{
  RobotJoin, Answer, error_100001, error_100003, error_100004, return_data, set_status_open,
  set_status_delete, open_loop, delete_loop, select_rows, delete_robot_join, delete_selected,
  delete_commit, open_chat_room, open_selected, open_commit,
}

-- Rows as `find` gives them: in the table as they are, with an id and status 0.
abbrev pub AreOpenable :
    {Text : Type 0} → (ℕ → Option (RobotJoin Text)) → List (RobotJoin Text) → Type 0
AreOpenable table [] = Unit
AreOpenable table (v ∷ vs) =
    ((0 < v.id) × (v.status ≡ 0) × (table v.id ≡ some v)) × AreOpenable table vs

-- The row with this id is as before, or it had status 0 and has the new one, and nothing else of it
-- has changed.
abbrev pub Changes :
    {Text : Type 0} → ℕ → Option (RobotJoin Text) → Option (RobotJoin Text) → Type 0
Changes {Text} status before after =
    (after ≡ before)
    ⊎ ((v : RobotJoin Text) × (before ≡ some v)
        × (v.status ≡ 0)
        × (after ≡ some (record v { status = status })))

module _ {Db Text : Type 0} (dec : Discrete Text) (blank : Text)
    (find : Db → Text → List Text → Option (List (RobotJoin Text)))
    (save : RobotJoin Text → Db → Option Db) (commit : Db → Bool)
    (row : Db → ℕ → Option (RobotJoin Text)) where
  -- Documented behaviour of gorm's Save: one row is written, and no other.
  abbrev pub SavesRow : Type 0
  SavesRow =
      (c : RobotJoin Text) (db tx : Db)
      → save c db ≡ some tx
      → (i : ℕ) → row tx i ≡ (if c.id == i then some c else row db i)

  -- Documented behaviour of the query: the rows are in the table, with an id and the status asked for.
  abbrev pub FindsRows : Type 0
  FindsRows =
      (db : Db) (my_id : Text) (logs : List Text) (vs : List (RobotJoin Text))
      → find db my_id logs ≡ some vs
      → AreOpenable (row db) vs

  keeps_change :
      (saves : SavesRow) (status : ℕ) (start tx tx' : Db) (v : RobotJoin Text)
      → (v.status ≡ 0)
      → (row start v.id ≡ some v)
      → save (record v { status = status }) tx ≡ some tx'
      → (i : ℕ) → Changes status (row start i) (row tx i)
      → Changes status (row start i) (row tx' i)
  keeps_change saves status start tx tx' v unhandled there saved i before =
      let written = saves (record v { status = status }) tx tx' saved i in
      elim (Bool-cases (v.id == i)) [
        | inl same ↦
            let e : v.id ≡ i = ground arith in
            inr (v, ap (row start) (sym e) ∙ there, unhandled, written ∙ (rw same refl))
        | inr other ↦
            subst (λ o. Changes status (row start i) o) (sym (written ∙ (rw other refl))) before
      ]

  keeps_mark :
      (saves : SavesRow) (status : ℕ) (start tx tx' : Db) (v r : RobotJoin Text)
      → (row start v.id ≡ some v)
      → save (record v { status = status }) tx ≡ some tx'
      → (i : ℕ) → row start i ≡ some r
      → row tx i ≡ some (record r { status = status })
      → row tx' i ≡ some (record r { status = status })
  keeps_mark saves status start tx tx' v r there saved i at_start before =
      let written = saves (record v { status = status }) tx tx' saved i in
      elim (Bool-cases (v.id == i)) [
        | inl same ↦
            let e : v.id ≡ i = ground arith in
            let one : v ≡ r = some-eq-some (sym there ∙ ap (row start) e ∙ at_start) in
            written
            ∙ (rw same (ap (λ (w : RobotJoin Text). some (record w { status = status })) one))
        | inr other ↦ written ∙ (rw other before)
      ]

  set_status_open-save :
      (v : RobotJoin Text) (tx : Db)
      → 0 < v.id
      → v.status ≡ 0
      → set_status_open save v tx ≡ save (record v { status = 1 }) tx
  unfolding set_status_open
  set_status_open-save v tx h e = ground arith

  set_status_delete-save :
      (v : RobotJoin Text) (tx : Db)
      → 0 < v.id
      → v.status ≡ 0
      → set_status_delete save v tx ≡ save (record v { status = 2 }) tx
  unfolding set_status_delete
  set_status_delete-save v tx h e = ground arith

  -- Save all rows with a status: what both loops do to the database.
  unfoldable save_all : ℕ → List (RobotJoin Text) → Db → Option Db
  save_all status [] tx = some tx
  save_all status (v ∷ vs) tx = elim (save (record v { status = status }) tx) [
    | none ↦ none
    | some tx' ↦ save_all status vs tx'
  ]

  abbrev db_of : Option (Db × List Text) → Option Db
  db_of none = none
  db_of (some end) = some end.0

  open_loop-save_all :
      (table : ℕ → Option (RobotJoin Text)) (vs : List (RobotJoin Text)) (logs : List Text)
      (tx : Db)
      → AreOpenable table vs
      → db_of (open_loop save vs logs tx) ≡ save_all 1 vs tx
  unfolding open_loop save_all
  open_loop-save_all table [] logs tx ok = refl
  open_loop-save_all table (v ∷ vs) logs tx ok =
      let rest = open_loop-save_all table vs (logs ++ v.log_serial_no ∷ []) in
      rw (db_of, open_loop, save_all, set_status_open-save v tx ok.0.0 ok.0.1)
        (after rest (save (record v { status = 1 }) tx))
    where
      after :
          ((tx' : Db)
            → AreOpenable table vs
            → db_of (open_loop save vs (logs ++ v.log_serial_no ∷ []) tx') ≡ save_all 1 vs tx')
          → (o : Option Db)
          → db_of (elim o [
            | none ↦ none
            | some tx' ↦ open_loop save vs (logs ++ v.log_serial_no ∷ []) tx'
          ])
            ≡ elim o [ none ↦ none | some tx' ↦ save_all 1 vs tx' ]
      after rest none = refl
      after rest (some tx') = rest tx' ok.1

  delete_loop-save_all :
      (table : ℕ → Option (RobotJoin Text)) (vs : List (RobotJoin Text)) (tx : Db)
      → AreOpenable table vs
      → delete_loop save vs tx ≡ save_all 2 vs tx
  unfolding delete_loop save_all
  delete_loop-save_all table [] tx ok = refl
  delete_loop-save_all table (v ∷ vs) tx ok =
      let rest = delete_loop-save_all table vs in
      rw (delete_loop, save_all, set_status_delete-save v tx ok.0.0 ok.0.1)
        (after rest (save (record v { status = 2 }) tx))
    where
      after :
          ((tx' : Db) → AreOpenable table vs → delete_loop save vs tx' ≡ save_all 2 vs tx')
          → (o : Option Db)
          → elim o as (λ _. Option Db) [ none ↦ none | some tx' ↦ delete_loop save vs tx' ]
            ≡ elim o [ none ↦ none | some tx' ↦ save_all 2 vs tx' ]
      after rest none = refl
      after rest (some tx') = rest tx' ok.1

  save_all-Changes :
      (saves : SavesRow) (status : ℕ) (start : Db) (vs : List (RobotJoin Text)) (tx end : Db)
      → AreOpenable (row start) vs
      → save_all status vs tx ≡ some end
      → (i : ℕ) → Changes status (row start i) (row tx i)
      → Changes status (row start i) (row end i)
  unfolding save_all
  save_all-Changes saves status start [] tx end ok h i c =
      subst (λ d. Changes status (row start i) (row d i)) (some-eq-some h) c
  save_all-Changes saves status start (v ∷ vs) tx end ok h i c =
      elim (Option-cases (save (record v { status = status }) tx)) [
        | inl e ↦ let gone : none ≡ some end = sym (rw (save_all, e) refl) ∙ h in cc
        | inr (tx', e) ↦
            let go_on : save_all status (v ∷ vs) tx ≡ save_all status vs tx' =
              rw (save_all, e) refl in
            save_all-Changes saves status start vs tx' end ok.1 (sym go_on ∙ h) i
              (keeps_change saves status start tx tx' v ok.0.1 ok.0.2 e i c)
      ]

  -- A commit that goes through leaves what the loop left, anything else the state before.
  open_commit-cases :
      (pull : List Text → Bool) (db : Db) (o : Option (Db × List Text))
      → (((open_commit dec blank find save commit pull db o).0 ≡ db)
          × ((open_commit dec blank find save commit pull db o).1 ≢ return_data))
        ⊎ ((end : Db) × (db_of o ≡ some end)
            × ((open_commit dec blank find save commit pull db o)
                ≡ (if commit end then end else db, return_data)))
  unfolding open_commit
  open_commit-cases pull db none = inl (refl, λ e. cc)
  open_commit-cases pull db (some (tx, real_logs)) = elim (Bool-cases (pull real_logs)) [
    | inl e ↦ inr (tx, refl, rw e refl)
    | inr e ↦ inl (rw e refl, rw e (λ e'. cc))
  ]

  not_found :
      {vs : List (RobotJoin Text)} (answer answer' : Answer)
      {r : Option (List (RobotJoin Text)) × Answer} {P : Type 0}
      → r ≡ (none, answer)
      → r ≡ (some vs, answer')
      → P
  not_found {vs} answer answer' e h =
      let gone : none ≡ some vs = sym (ap (λ r. r.0) e) ∙ ap (λ r. r.0) h in cc

  select_rows_found :
      (finds : FindsRows) (db : Db) (my_id : Text) (logs : List Text) (vs : List (RobotJoin Text))
      (answer : Answer)
      → select_rows dec blank find save commit db my_id logs ≡ (some vs, answer)
      → AreOpenable (row db) vs
  unfolding select_rows
  select_rows_found finds db my_id [] vs answer h = not_found _ _ refl h
  select_rows_found finds db my_id (log ∷ logs) vs answer h = elim (dec my_id blank) [
    | yes p ↦ not_found error_100001 answer (rw (select_rows, if_pos (dec my_id blank) p) refl) h
    | no p ↦ elim (Option-cases (find db my_id (log ∷ logs))) [
      | inl e ↦
          not_found error_100004 answer (rw (select_rows, if_neg (dec my_id blank) p, e) refl) h
      | inr (l, e) ↦ listed p l e
    ]
  ]
    where
      listed :
          (my_id ≢ blank)
          → (l : List (RobotJoin Text)) → find db my_id (log ∷ logs) ≡ some l
          → AreOpenable (row db) vs
      listed p [] e =
          not_found error_100003 answer (rw (select_rows, if_neg (dec my_id blank) p, e) refl) h
      listed p (v ∷ l) e =
          let out : select_rows dec blank find save commit db my_id (log ∷ logs)
              ≡ (some (v ∷ l), return_data) =
            rw (select_rows, if_neg (dec my_id blank) p, e) refl in
          subst (AreOpenable (row db)) (some-eq-some (sym (ap (λ r. r.0) out) ∙ ap (λ r. r.0) h))
            (finds db my_id (log ∷ logs) (v ∷ l) e)

  -- With the documented behaviour of the database: OpenChatRoom leaves the database as it was, as
  -- after a failed commit, or it answers with the data and every row is as before or was opened from status 0.
  pub open_chat_room-Changes :
      SavesRow
      → FindsRows
      → (pull : List Text → Bool) (db : Db) (my_id : Text) (logs : List Text) (i : ℕ)
      → ((open_chat_room dec blank find save commit pull db my_id logs).0 ≡ db)
        ⊎ (((open_chat_room dec blank find save commit pull db my_id logs).1 ≡ return_data)
            × Changes 1
                (row db i)
                (row (open_chat_room dec blank find save commit pull db my_id logs).0 i))
  unfolding open_chat_room open_selected
  open_chat_room-Changes saves finds pull db my_id logs i =
      selected (select_rows dec blank find save commit db my_id logs) refl
    where
      selected :
          (r : Option (List (RobotJoin Text)) × Answer)
          → select_rows dec blank find save commit db my_id logs ≡ r
          → ((open_selected dec blank find save commit pull db r).0 ≡ db)
            ⊎ (((open_selected dec blank find save commit pull db r).1 ≡ return_data)
                × Changes 1
                    (row db i)
                    (row (open_selected dec blank find save commit pull db r).0 i))
      selected (none, answer) e = inl refl
      selected (some vs, answer) e =
          let ok = select_rows_found finds db my_id logs vs answer e in
          elim (open_commit-cases pull db (open_loop save vs [] db)) [
            | inl same ↦ inl same.0
            | inr (end, reached, out) ↦
                let all_saved = sym (open_loop-save_all (row db) vs [] db ok) ∙ reached in
                elim (Bool-cases (commit end)) [
                  | inl c ↦ inr (
                    ap (λ r. r.1) out,
                    rw (out, c) (save_all-Changes saves 1 db vs db end ok all_saved i (inl refl)),
                  )
                  | inr c ↦ inl (rw (out, c) refl)
                ]
          ]

  save_all-keeps :
      (saves : SavesRow) (status : ℕ) (start : Db) (vs : List (RobotJoin Text)) (tx end : Db)
      (r : RobotJoin Text) (i : ℕ)
      → AreOpenable (row start) vs
      → save_all status vs tx ≡ some end
      → row start i ≡ some r
      → row tx i ≡ some (record r { status = status })
      → row end i ≡ some (record r { status = status })
  unfolding save_all
  save_all-keeps saves status start [] tx end r i ok h at_start now =
      ap (λ d. row d i) (sym (some-eq-some h)) ∙ now
  save_all-keeps saves status start (v ∷ vs) tx end r i ok h at_start now =
      elim (Option-cases (save (record v { status = status }) tx)) [
        | inl e ↦ let gone : none ≡ some end = sym (rw (save_all, e) refl) ∙ h in cc
        | inr (tx', e) ↦
            let go_on : save_all status (v ∷ vs) tx ≡ save_all status vs tx' =
              rw (save_all, e) refl in
            save_all-keeps saves status start vs tx' end r i ok.1 (sym go_on ∙ h) at_start
              (keeps_mark saves status start tx tx' v r ok.0.2 e i at_start now)
      ]

  save_all-marks :
      (saves : SavesRow) (status : ℕ) (start : Db) (vs : List (RobotJoin Text)) (tx end : Db)
      (k : ℕ) (r : RobotJoin Text)
      → AreOpenable (row start) vs
      → save_all status vs tx ≡ some end
      → get_elem? vs k ≡ some r
      → row end r.id ≡ some (record r { status = status })
  unfolding save_all
  save_all-marks saves status start [] tx end k r ok h found = cc
  save_all-marks saves status start (v ∷ vs) tx end k r ok h found =
      elim (Option-cases (save (record v { status = status }) tx)) [
        | inl e ↦ let gone : none ≡ some end = sym (rw (save_all, e) refl) ∙ h in cc
        | inr (tx', e) ↦
            let go_on : save_all status (v ∷ vs) tx ≡ save_all status vs tx' =
              rw (save_all, e) refl in
            here_or_later k found tx' e (sym go_on ∙ h)
              (save_all-marks saves status start vs tx' end)
      ]
    where
      here_or_later :
          (k : ℕ)
          → get_elem? (v ∷ vs) k ≡ some r
          → (tx' : Db) → save (record v { status = status }) tx ≡ some tx'
          → save_all status vs tx' ≡ some end
          → ((k : ℕ) (r : RobotJoin Text)
              → AreOpenable (row start) vs
              → save_all status vs tx' ≡ some end
              → get_elem? vs k ≡ some r
              → row end r.id ≡ some (record r { status = status }))
          → row end r.id ≡ some (record r { status = status })
      here_or_later zero found tx' e rest later =
          let same : v ≡ r = some-eq-some found in
          let written : row tx' v.id ≡ some (record v { status = status }) =
            saves (record v { status = status }) tx tx' e v.id
            ∙ (let yes_it_is : (v.id == v.id) ≡ true = ground arith in rw yes_it_is refl) in
          subst (λ (w : RobotJoin Text). row end w.id ≡ some (record w { status = status })) same
            (save_all-keeps saves status start vs tx' end v v.id ok.1 rest ok.0.2 written)
      here_or_later (suc k) found tx' e rest later = later k r ok.1 rest found

  -- With the documented behaviour of the database: when OpenChatRoom answers with the data, each
  -- row that the query found has status 1 in the database, and is otherwise as it was found, or the
  -- commit failed and the database is as it was.
  pub open_chat_room_marks :
      SavesRow
      → FindsRows
      → (pull : List Text → Bool) (db : Db) (my_id : Text) (logs : List Text)
      → (vs : List (RobotJoin Text)) (k : ℕ) (v : RobotJoin Text)
      → (open_chat_room dec blank find save commit pull db my_id logs).1 ≡ return_data
      → select_rows dec blank find save commit db my_id logs ≡ (some vs, return_data)
      → get_elem? vs k ≡ some v
      → ((end : Db) × (commit end ≡ false)
          × ((open_chat_room dec blank find save commit pull db my_id logs).0 ≡ db))
        ⊎ (row (open_chat_room dec blank find save commit pull db my_id logs).0 v.id
            ≡ some (record v { status = 1 }))
  unfolding open_chat_room open_selected
  open_chat_room_marks saves finds pull db my_id logs vs k v done selected found =
      let ok = select_rows_found finds db my_id logs vs return_data selected in
      let out : open_chat_room dec blank find save commit pull db my_id logs
          ≡ open_commit dec blank find save commit pull db (open_loop save vs [] db) =
        ap (open_selected dec blank find save commit pull db) selected in
      elim (open_commit-cases pull db (open_loop save vs [] db)) [
        | inl (same, refused) ↦ absurd (refused (sym (ap (λ r. r.1) out) ∙ done))
        | inr (end, reached, committed) ↦
            let all_saved = sym (open_loop-save_all (row db) vs [] db ok) ∙ reached in
            elim (Bool-cases (commit end)) [
              | inl c ↦ inr (
                  ap (λ r. row r.0 v.id) (out ∙ committed)
                  ∙ rw c (save_all-marks saves 1 db vs db end k v ok all_saved found))
              | inr c ↦ inl (end, c, ap (λ r. r.0) (out ∙ committed) ∙ rw c refl)
            ]
      ]

  -- With the documented behaviour of the database: DeleteRobotJoin leaves the database as it was, as
  -- after a failed commit, or it answers with the data and every row is as before or was deleted from status 0.
  pub delete_robot_join-Changes :
      SavesRow
      → FindsRows
      → (db : Db) (my_id : Text) (logs : List Text) (i : ℕ)
      → ((delete_robot_join dec blank find save commit db my_id logs).0 ≡ db)
        ⊎ (((delete_robot_join dec blank find save commit db my_id logs).1 ≡ return_data)
            × Changes 2
                (row db i)
                (row (delete_robot_join dec blank find save commit db my_id logs).0 i))
  unfolding delete_robot_join delete_selected delete_commit
  delete_robot_join-Changes saves finds db my_id logs i =
      selected (select_rows dec blank find save commit db my_id logs) refl
    where
      selected :
          (r : Option (List (RobotJoin Text)) × Answer)
          → select_rows dec blank find save commit db my_id logs ≡ r
          → ((delete_selected dec blank find save commit db r).0 ≡ db)
            ⊎ (((delete_selected dec blank find save commit db r).1 ≡ return_data)
                × Changes 2 (row db i) (row (delete_selected dec blank find save commit db r).0 i))
      selected (none, answer) e = inl refl
      selected (some vs, answer) e =
          let ok = select_rows_found finds db my_id logs vs answer e in
          elim (Option-cases (delete_loop save vs db)) [
            | inl stopped ↦ inl (rw (delete_selected, stopped) refl)
            | inr (end, reached) ↦
                let all_saved = sym (delete_loop-save_all (row db) vs db ok) ∙ reached in
                elim (Bool-cases (commit end)) [
                  | inl c ↦ inr (
                    rw (delete_selected, reached) refl,
                    rw (delete_selected, reached, c)
                        (save_all-Changes saves 2 db vs db end ok all_saved i (inl refl)),
                  )
                  | inr c ↦ inl (rw (delete_selected, reached, c) refl)
                ]
          ]
