-- ===== src/Uchat/RoomTemplates/Laws.antt =====
-- uchat/template.go: what gorm documents of the calls on the links, where they succeed.
use mathlib.Core.Logic.{ite}
use zhiya.Prelude.{Bool, true, ◌≡◌, ◌↔◌, some, List, ◌++◌, map, if◌then◌else◌}
use zhiya.Uchat.Tables.{Among}
use zhiya.Uchat.RoomMembers.{in_string_slice}
use zhiya.Uchat.RoomTemplates.{Link, Links, RobotChatRoom}
use zhiya.Uchat.WorkTemplate.{WorkTemplate}

module _ {Text : Type 0} (dec : Discrete Text) where
  unfoldable pub cleared : Text → Text → Link Text → Link Text
  cleared blank template l =
      ite (dec l.work_template_id template) (record l { work_template_id = blank }) l

  unfoldable pub linked_to : List Text → Text → Text → Link Text → Link Text
  linked_to rooms cmd_type template l =
      ite (dec l.cmd_type cmd_type)
        (if in_string_slice dec rooms l.chat_room_serial_no
          then record l { work_template_id = template }
          else l)
        l

unfoldable pub new_link : {Text : Type 0} → Text → Text → Text → Link Text
new_link cmd_type template room = record {
  chat_room_serial_no = room;
  cmd_type = cmd_type;
  work_template_id = template;
}

pub record LinksAreLawful {Text Db : Type 0} (O : Links Text Db) (links : Db → List (Link Text))
    (dec : Discrete Text) (blank : Text) : Type 0 where
  pub delete_links-links :
      (template cmd_type : Text) (db db' : Db) (l : Link Text)
      → O.delete_links template cmd_type db ≡ some db'
      → Among l (links db')
      → (l.work_template_id ≡ template) × (l.cmd_type ≡ cmd_type)
      → ⊥
  pub clear_links-links :
      (template : Text) (db db' : Db)
      → O.clear_links template db ≡ some db'
      → links db' ≡ map (cleared dec blank template) (links db)
  pub set_links-links :
      (rooms : List Text) (cmd_type template : Text) (db db' : Db)
      → O.set_links rooms cmd_type template db ≡ some db'
      → links db' ≡ map (linked_to dec rooms cmd_type template) (links db)
  pub find_links-links :
      (template : Text) (db : Db) (found : List (Link Text)) (l : Link Text)
      → O.find_links template db ≡ some found
      → Among l found ↔ (Among l (links db) × (l.work_template_id ≡ template))
  pub insert_links-links :
      (rooms : List Text) (cmd_type template : Text) (db db' : Db)
      → O.insert_links rooms cmd_type template db ≡ some db'
      → links db' ≡ links db ++ map (new_link cmd_type template) rooms
  pub commit-links : (db db' : Db) → O.commit db ≡ some db' → links db' ≡ links db

-- What gorm documents of the two queries, about the rows that a database holds.
pub record QueriesAreLawful {Text Db : Type 0} (O : Links Text Db)
    (templates : Db → List (WorkTemplate Text)) (robot_rooms : Db → List (RobotChatRoom Text))
    : Type 0 where
  pub first_template-some :
      (f : WorkTemplate Text → Bool) (db : Db) (t : WorkTemplate Text)
      → O.first_template f db ≡ some t
      → Among t (templates db) × (f t ≡ true)
  pub find_rooms-some :
      (f : RobotChatRoom Text → Bool) (db : Db) (l : List (RobotChatRoom Text))
      (c : RobotChatRoom Text)
      → O.find_rooms f db ≡ some l
      → Among c l ↔ (Among c (robot_rooms db) × (f c ≡ true))
