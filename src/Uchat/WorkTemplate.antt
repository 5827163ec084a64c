-- ===== src/Uchat/WorkTemplate.antt =====
-- uchat/template.go: UpdateWorkTemplate and SetDefaultWorkTemplate. The database (gorm) is a
-- parameter, and `none` an error of it. A rollback
-- goes back to the database before the transaction. The int8 of a status is its 8-bit pattern.
pub mod Default
mod Examples
use mathlib.Core.Logic.{ite}
use zhiya.Prelude.{
  ℕ, zero, suc, Bool, true, false, ◌&&◌, Option, none, some, leb, ◌==◌, if◌then◌else◌,
}

-- Without the count of its chat rooms, which the functions here leave alone.
pub record WorkTemplate (Text : Type 0) : Type 0 where
  pub id : ℕ
  pub work_template_id : Text
  pub my_id : Text
  pub sub_id : Text
  pub name : Text
  pub cmd_type : Text
  pub cmd_value : Text
  pub cmd_params : Text
  pub cmd_reply : Text
  pub is_default : Bool
  pub status : ℕ

pub data Failure : Type 0 where
  is_default_template : Failure
  db_failed : Failure

-- The template, or the error.
pub data Result (Text : Type 0) : Type 0 where
  ok : WorkTemplate Text → Result Text
  error : Failure → Result Text

module _ {Text : Type 0} (dec : Discrete Text) (blank : Text) where
  unfoldable pub or_keep : Option Text → Text → Text
  or_keep none old = old
  or_keep (some new) old = new

  -- The changes of UpdateWorkTemplate; `none` is the refusal to delete a default template.
  unfoldable pub update_fields :
      WorkTemplate Text
      → Text
      → Option Text
      → Option Text
      → Option Text
      → ℕ
      → Option (WorkTemplate Text)
  update_fields t name cmd_value cmd_params cmd_reply status =
      if leb status 2 && (t.is_default && (status == 2))
      then none
      else some (record t {
        name = ite (dec name blank) t.name name;
        status = if leb status 2 then status else t.status;
        cmd_value = or_keep cmd_value t.cmd_value;
        cmd_params = or_keep cmd_params t.cmd_params;
        cmd_reply = or_keep cmd_reply t.cmd_reply;
      })

  module _ {Db : Type 0} (save : WorkTemplate Text → Db → Option Db) where
    unfoldable pub store_update : Db → Option (WorkTemplate Text) → Db × Result Text
    store_update db none = (db, error is_default_template)
    store_update db (some t) = elim (save t db) [
      | none ↦ (db, error db_failed)
      | some db' ↦ (db', ok t)
    ]

    -- `first` is the template with the id that was asked for.
    unfoldable pub update_work_template :
        Db
        → Option (WorkTemplate Text)
        → Text
        → Option Text
        → Option Text
        → Option Text
        → ℕ
        → Db × Result Text
    update_work_template db none name cmd_value cmd_params cmd_reply status = (db, error db_failed)
    update_work_template db (some t) name cmd_value cmd_params cmd_reply status =
        store_update db (update_fields t name cmd_value cmd_params cmd_reply status)

    -- `clear` takes the default from all templates of a user and a type. `first` is the template in
    -- status 0 with the id that was asked for. `commit` tells whether the commit goes through, whose
    -- error is not looked at.
    unfoldable pub set_default_work_template :
        (Text → Text → Text → Db → Option Db)
        → (Db → Bool)
        → Db
        → Text
        → Text
        → Option (WorkTemplate Text)
        → Db × Result Text
    set_default_work_template clear commit db my_id sub_id none = (db, error db_failed)
    set_default_work_template clear commit db my_id sub_id (some t) =
        elim (clear my_id sub_id t.cmd_type db) [
          | none ↦ (db, error db_failed)
          | some tx ↦ elim (save (record t { is_default = true }) tx) [
            | none ↦ (db, error db_failed)
            | some tx' ↦ (if commit tx' then tx' else db, ok (record t { is_default = true }))
          ]
        ]
