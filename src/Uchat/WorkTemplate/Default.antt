-- ===== src/Uchat/WorkTemplate/Default.antt =====
-- uchat/template.go: the default template of a user and a type.
use mathlib.Core.Logic.{ite}
use zhiya.Prelude.{
  ℕ, ◌≡◌, ◌≢◌, ◌⊎◌, inl, inr, refl, sym, ap, ◌∙◌, Bool, true, false, ◌&&◌, Option, none, some,
  arith, leb, ◌==◌, Option-cases, Bool-cases, if◌then◌else◌, some-eq-some,
}
use zhiya.Uchat.WorkTemplate.{
  WorkTemplate, Result, ok, error, db_failed, or_keep, update_fields, set_default_work_template,
}

module _ {Text : Type 0} (dec : Discrete Text) (blank : Text) where
  -- UpdateWorkTemplate never deletes a default template: one that is default and not in status 2
  -- stays so, whatever is asked for, and keeps its ids, its owner and its type. It may be disabled.
  pub update_fields_default :
      (t u : WorkTemplate Text) (name : Text) (cmd_value cmd_params cmd_reply : Option Text)
      (status : ℕ)
      → t.is_default ≡ true
      → t.status ≢ 2
      → update_fields dec blank t name cmd_value cmd_params cmd_reply status ≡ some u
      → (u.is_default ≡ true)
        × (u.status ≢ 2)
        × (u.id ≡ t.id)
        × (u.work_template_id ≡ t.work_template_id)
        × (u.my_id ≡ t.my_id)
        × (u.sub_id ≡ t.sub_id)
        × (u.cmd_type ≡ t.cmd_type)
  unfolding update_fields
  update_fields_default t u name cmd_value cmd_params cmd_reply status d s h =
      elim (Bool-cases (leb status 2 && (t.is_default && (status == 2)))) [
        | inl refused ↦ let gone : none ≡ some u = sym (rw (update_fields, refused) refl) ∙ h in cc
        | inr allowed ↦
            let w : WorkTemplate Text = record t {
              name = ite (dec name blank) t.name name;
              status = if leb status 2 then status else t.status;
              cmd_value = or_keep dec blank cmd_value t.cmd_value;
              cmd_params = or_keep dec blank cmd_params t.cmd_params;
              cmd_reply = or_keep dec blank cmd_reply t.cmd_reply;
            } in
            let e : w ≡ u = some-eq-some (sym (rw (update_fields, allowed) refl) ∙ h) in
            let not_deleted : (if leb status 2 then status else t.status) ≢ 2 = ground arith in
            (
              ap (λ (x : WorkTemplate Text). x.is_default) (sym e) ∙ d,
              λ two. not_deleted (ap (λ (x : WorkTemplate Text). x.status) e ∙ two),
              ap (λ (x : WorkTemplate Text). x.id) (sym e),
              ap (λ (x : WorkTemplate Text). x.work_template_id) (sym e),
              ap (λ (x : WorkTemplate Text). x.my_id) (sym e),
              ap (λ (x : WorkTemplate Text). x.sub_id) (sym e),
              ap (λ (x : WorkTemplate Text). x.cmd_type) (sym e),
            )
      ]

  module _ {Db : Type 0} (save : WorkTemplate Text → Db → Option Db)
      (clear : Text → Text → Text → Db → Option Db) (commit : Db → Bool)
      (row : Db → ℕ → Option (WorkTemplate Text)) where
    -- Documented behaviour of gorm's Save: one row is written, and no other.
    abbrev pub SavesTemplate : Type 0
    SavesTemplate =
        (t : WorkTemplate Text) (db tx : Db)
        → save t db ≡ some tx
        → (i : ℕ) → row tx i ≡ (if t.id == i then some t else row db i)

    -- Documented behaviour of the update of a column: no row of the user and the type is default.
    abbrev pub ClearsDefault : Type 0
    ClearsDefault =
        (my_id sub_id cmd_type : Text) (db tx : Db)
        → clear my_id sub_id cmd_type db ≡ some tx
        → (i : ℕ) (v : WorkTemplate Text) → row tx i ≡ some v
        → v.my_id ≡ my_id
        → v.sub_id ≡ sub_id
        → v.cmd_type ≡ cmd_type
        → v.is_default ≡ false

    set_default_steps :
        (db db' : Db) (my_id sub_id : Text) (t u : WorkTemplate Text)
        → set_default_work_template dec blank save clear commit db my_id sub_id (some t)
          ≡ (db', ok u)
        → (tx : Db) × (clear my_id sub_id t.cmd_type db ≡ some tx)
          × ((tx' : Db) × (save (record t { is_default = true }) tx ≡ some tx')
              × (db' ≡ (if commit tx' then tx' else db)))
          × (u ≡ record t { is_default = true })
    unfolding set_default_work_template
    set_default_steps db db' my_id sub_id t u h =
        elim (Option-cases (clear my_id sub_id t.cmd_type db)) [
          | inl e ↦ not_ok (sym (rw (set_default_work_template, e) refl) ∙ h)
          | inr (tx, e) ↦ elim (Option-cases (save (record t { is_default = true }) tx)) [
            | inl e' ↦ not_ok (sym (rw (set_default_work_template, e, e') refl) ∙ h)
            | inr (tx', e') ↦
                let out : ◌≡◌ {A = Db × Result Text}
                    (if commit tx' then tx' else db, ok (record t { is_default = true }))
                    (db', ok u) =
                  sym (rw (set_default_work_template, e, e') refl) ∙ h in
                (
                  tx,
                  e,
                  (tx', e', sym (ap (λ r. r.0) out)),
                  is_same (record t { is_default = true }) u (ap (λ r. r.1) out),
                )
          ]
        ]
      where
        not_ok : {P : Type 0} → ◌≡◌ {A = Db × Result Text} (db, error db_failed) (db', ok u) → P
        not_ok e = let gone : error db_failed ≡ ok u = ap (λ r. r.1) e in cc

        is_same : (a b : WorkTemplate Text) → ok a ≡ ok b → b ≡ a
        is_same a b e = cc

    -- With the documented behaviour of the database: when SetDefaultWorkTemplate succeeds, no other
    -- template of the user and the type is default, or the commit failed and the database is as it
    -- was.
    pub set_default_unique :
        SavesTemplate
        → ClearsDefault
        → (db db' : Db) (my_id sub_id : Text) (t u : WorkTemplate Text) (i : ℕ)
          (v : WorkTemplate Text)
        → set_default_work_template dec blank save clear commit db my_id sub_id (some t)
          ≡ (db', ok u)
        → row db' i ≡ some v
        → v.my_id ≡ my_id
        → v.sub_id ≡ sub_id
        → v.cmd_type ≡ t.cmd_type
        → v.is_default ≡ true
        → ((tx : Db) × (commit tx ≡ false) × (db' ≡ db)) ⊎ (i ≡ t.id)
    set_default_unique saves clears db db' my_id sub_id t u i v h there m s c d =
        let (tx, cleared, (tx', saved, out), same) = set_default_steps db db' my_id sub_id t u h in
        elim (Bool-cases (commit tx')) [
          | inr failed ↦ inl (tx', failed, out ∙ rw failed refl)
          | inl goes ↦
              let e : db' ≡ tx' = out ∙ rw goes refl in
              let written = saves (record t { is_default = true }) tx tx' saved i in
              elim (Bool-cases (t.id == i)) [
                | inl here ↦ inr (ground arith)
                | inr other ↦
                    let before : row tx i ≡ some v =
                      sym (ap (λ d. row d i) e ∙ written ∙ (rw other refl)) ∙ there in
                    let off = clears my_id sub_id t.cmd_type db tx cleared i v before m s c in
                    let gone : true ≡ false = sym d ∙ off in cc
              ]
        ]
