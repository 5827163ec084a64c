-- ===== src/Uchat/WorkTemplate/Examples.antt =====
-- Runs of the work templates: a database is its table, with numbers as texts; 0 is the empty text.
use zhiya.Prelude.{
  ℕ, ◌≡◌, ◌≢◌, ◌⊎◌, inl, inr, refl, sym, ap, ◌∙◌, Bool, true, false, ◌&&◌, Option, none, some,
  arith, ◌==◌, ℕ_discrete, Bool-cases, some-eq-some, if◌then◌else◌,
}
use zhiya.Uchat.WorkTemplate.{WorkTemplate, ok, update_fields, or_keep, set_default_work_template}
use zhiya.Uchat.WorkTemplate.Default.{
  SavesTemplate, ClearsDefault, update_fields_default, set_default_unique,
}

abbrev template : ℕ → Bool → WorkTemplate ℕ
template id is_default = record {
  id = id;
  work_template_id = 100;
  my_id = 8;
  sub_id = 9;
  name = 1;
  cmd_type = 5;
  cmd_value = 0;
  cmd_params = 0;
  cmd_reply = 0;
  is_default = is_default;
  status = 0;
}

abbrev Table : Type 0
Table = ℕ → Option (WorkTemplate ℕ)

abbrev table : Table
table i =
    if i == 1 then some (template 1 true) else if i == 2 then some (template 2 false) else none

abbrev save_template : WorkTemplate ℕ → Table → Option Table
save_template t db = some (λ i. if t.id == i then some t else db i)

abbrev is_kind : ℕ → ℕ → ℕ → WorkTemplate ℕ → Bool
is_kind my_id sub_id cmd_type t =
    (t.my_id == my_id) && ((t.sub_id == sub_id) && (t.cmd_type == cmd_type))

abbrev cleared : ℕ → ℕ → ℕ → Option (WorkTemplate ℕ) → Option (WorkTemplate ℕ)
cleared my_id sub_id cmd_type none = none
cleared my_id sub_id cmd_type (some t) =
    if is_kind my_id sub_id cmd_type t then some (record t { is_default = false }) else some t

abbrev clear_default : ℕ → ℕ → ℕ → Table → Option Table
clear_default my_id sub_id cmd_type db = some (λ i. cleared my_id sub_id cmd_type (db i))

abbrev row_at : Table → ℕ → Option (WorkTemplate ℕ)
row_at db i = db i

abbrev commits : Table → Bool
commits db = true

writes : SavesTemplate ℕ_discrete 0 save_template clear_default commits row_at
writes t db tx h i = ap (λ (d : Table). d i) (sym (some-eq-some h))

off_after :
    (my_id sub_id cmd_type : ℕ) (o : Option (WorkTemplate ℕ)) (v : WorkTemplate ℕ)
    → cleared my_id sub_id cmd_type o ≡ some v
    → v.my_id ≡ my_id
    → v.sub_id ≡ sub_id
    → v.cmd_type ≡ cmd_type
    → v.is_default ≡ false
off_after my_id sub_id cmd_type none v h m s c = cc
off_after my_id sub_id cmd_type (some t) v h m s c =
    elim (Bool-cases (is_kind my_id sub_id cmd_type t)) [
      | inl kind ↦
          let e : record t { is_default = false } ≡ v =
            some-eq-some (sym (rw (cleared, kind) refl) ∙ h) in
          ap (λ (x : WorkTemplate ℕ). x.is_default) (sym e)
      | inr other ↦
          let e : t ≡ v = some-eq-some (sym (rw (cleared, other) refl) ∙ h) in
          let m' : t.my_id ≡ my_id = ap (λ (x : WorkTemplate ℕ). x.my_id) e ∙ m in
          let s' : t.sub_id ≡ sub_id = ap (λ (x : WorkTemplate ℕ). x.sub_id) e ∙ s in
          let c' : t.cmd_type ≡ cmd_type = ap (λ (x : WorkTemplate ℕ). x.cmd_type) e ∙ c in
          absurd (ground arith)
    ]

clears : ClearsDefault ℕ_discrete 0 save_template clear_default commits row_at
clears my_id sub_id cmd_type db tx h i v there =
    off_after my_id sub_id cmd_type (db i) v (ap (λ (d : Table). d i) (some-eq-some h) ∙ there)

abbrev table_after : Table
table_after i = if 2 == i then some (template 2 true) else cleared 8 9 5 (table i)

second_default :
    set_default_work_template ℕ_discrete 0 save_template clear_default commits table 8 9
      (some (template 2 false))
    ≡ (table_after, ok (template 2 true))
unfolding set_default_work_template
second_default = refl

set_default_unique_example :
    ((tx : Table) × (commits tx ≡ false) × (table_after ≡ table)) ⊎ (2 ≡ (template 2 false).id)
set_default_unique_example =
    set_default_unique ℕ_discrete 0 save_template clear_default commits row_at writes clears table
      table_after 8 9 (template 2 false) (template 2 true) 2 (template 2 true) second_default refl
      refl refl refl refl

abbrev renamed : WorkTemplate ℕ
renamed = record (template 1 true) { name = 77; status = 1 }

renames : update_fields ℕ_discrete 0 (template 1 true) 77 none none none 1 ≡ some renamed
unfolding update_fields or_keep ℕ_discrete
renames = refl

update_fields_default_example :
    (renamed.is_default ≡ true)
    × (renamed.status ≢ 2)
    × (renamed.id ≡ 1)
    × (renamed.work_template_id ≡ (template 1 true).work_template_id)
    × (renamed.my_id ≡ 8)
    × (renamed.sub_id ≡ 9)
    × (renamed.cmd_type ≡ 5)
update_fields_default_example =
    update_fields_default ℕ_discrete 0 (template 1 true) renamed 77 none none none 1 refl
      (λ e. absurd (omega (arith, e))) renames
