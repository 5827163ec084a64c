-- ===== src/Apis/ApplyCode.antt =====
-- models/robots.go and apis/apply_code.go: FindValidRobotByMyId, FindValidCodeRobotByMyId and
-- FetchApplyCode. The queries, the chat service, the parser of times and rand.Intn are parameters.
pub mod Usable
mod Examples
use mathlib.Core.Logic.{ite}
use zhiya.Prelude.{
  ℕ, zero, suc, Bool, true, false, ◌&&◌, Option, none, some, List, [], ◌∷◌, ltb, ◌==◌, length,
  get_elem?, if◌then◌else◌,
}

pub record Robot (Text : Type 0) : Type 0 where
  pub serial_no : Text
  pub status : ℕ

pub data Failure : Type 0 where
  query_failed : Failure
  no_valid_robots : Failure
  no_empty_robots : Failure

-- The keys of a code that the service returns.
pub record CodeData (Text : Type 0) : Type 0 where
  pub vc_robot_serial_no : Text
  pub vc_nick_name : Text
  pub vc_chat_room_serial_no : Text
  pub dt_end_date : Text
  pub vc_serial_no : Text
  pub vc_code : Text
  pub vc_code_images : Text
  pub dt_create_date : Text

pub record RobotApplyCode (Text Time : Type 0) : Type 0 where
  pub robot_serial_no : Text
  pub robot_nick_name : Text
  pub type_text : Text
  pub chat_room_serial_no : Text
  pub expire_time : Time
  pub code_serial_no : Text
  pub code_value : Text
  pub code_images : Text
  pub code_time : Time
  pub my_id : Text
  pub sub_id : Text
  pub used : Bool

pub data Outcome (Code : Type 0) : Type 0 where
  error_my_id : Outcome Code
  failed : Failure → Outcome Code
  service_failed : Outcome Code
  panics : Outcome Code
  existing : Code → Outcome Code
  created : Code → Outcome Code
  not_stored : Code → Outcome Code

module _ {Text : Type 0} (used_today : Text → ℕ) (limit : ℕ) where
  -- The loop of FindValidCodeRobotByMyId: the robots in state 10 that are below the day's limit.
  unfoldable pub usable : List (Robot Text) → List (Robot Text)
  usable [] = []
  usable (r ∷ robots) =
      let rest = usable robots in
      if r.status == 10
      then (if ltb (used_today r.serial_no) limit then r ∷ rest else rest)
      else rest

  -- The end of FindValidCodeRobotByMyId: no robot is an error.
  unfoldable pub some_robots : List (Robot Text) → List (Robot Text) × Option Failure
  some_robots [] = ([], some no_valid_robots)
  some_robots (r ∷ list) = (r ∷ list, none)

  -- FindValidCodeRobotByMyId after its call of FindValidRobotByMyId.
  unfoldable pub code_robots :
      List (Robot Text) × Option Failure → List (Robot Text) × Option Failure
  code_robots (robots, some e) = (robots, some e)
  code_robots (robots, none) = some_robots (usable robots)

-- `find_robots` is FindRobotByMyId, as serial numbers. `query` is the query for those with fewer
-- than 30 chat rooms: its rows, and whether it has an error. `used_today` counts the codes that a
-- robot used today; it is 0 where that query fails.
module _ {Text : Type 0} (find_robots : Text → Option (List Text))
    (query : List Text → List (Robot Text) × Bool) where
  unfoldable pub find_valid_robot : Text → List (Robot Text) × Option Failure
  find_valid_robot my_id = elim (find_robots my_id) [
    | none ↦ ([], some query_failed)
    | some [] ↦ ([], some no_valid_robots)
    | some (i ∷ ids) ↦
        let (list, fails) = query (i ∷ ids) in
        elim list [
          | [] ↦ ([], some no_empty_robots)
          | r ∷ robots ↦ (r ∷ robots, if fails then some query_failed else none)
        ]
  ]

  unfoldable pub find_valid_code_robot : (Text → ℕ) → Text → ℕ → List (Robot Text) × Option Failure
  find_valid_code_robot used_today my_id limit =
      code_robots used_today limit (find_valid_robot my_id)

module _ {Text : Type 0} (dec : Discrete Text) where
  -- The loop that looks for the robot that was asked for.
  unfoldable pub prefer : Text → Text → List (Robot Text) → Text
  prefer wanted picked [] = picked
  prefer wanted picked (r ∷ robots) =
      ite (dec r.serial_no wanted) r.serial_no (prefer wanted picked robots)

  -- `sendRobotSerialNo`; `none` is the panic of rand.Intn or of the index.
  unfoldable pub send_robot : (ℕ → ℕ) → Text → List (Robot Text) → Option Text
  send_robot intn wanted robots = elim (get_elem? robots (intn (length robots))) [
    | none ↦ none
    | some r ↦ some (prefer wanted r.serial_no robots)
  ]

module _ {Text Time : Type 0} (parse : Text → Time) (ten : Text) where
  unfoldable pub new_code : CodeData Text → Text → Text → RobotApplyCode Text Time
  new_code d my_id sub_id = record {
    robot_serial_no = d.vc_robot_serial_no;
    robot_nick_name = d.vc_nick_name;
    type_text = ten;
    chat_room_serial_no = d.vc_chat_room_serial_no;
    expire_time = parse d.dt_end_date;
    code_serial_no = d.vc_serial_no;
    code_value = d.vc_code;
    code_images = d.vc_code_images;
    code_time = parse d.dt_create_date;
    my_id = my_id;
    sub_id = sub_id;
    used = false;
  }

-- `codes` and `codes_of` are FindVaildApplyCodeByMyId and FindVaildApplyCodeByMyIdAndRobot, `apply`
-- the chat service, `store` whether the new row is stored, `limit_of` the number in the text of the
-- limit, and `ten` the text "10".
module _ {Text Time : Type 0} (dec : Discrete Text) (blank ten : Text)
    (codes : Text → Text → Option (List (RobotApplyCode Text Time)))
    (codes_of : Text → Text → Text → Option (List (RobotApplyCode Text Time)))
    (valid_robots : Text → ℕ → List (Robot Text) × Option Failure) (limit_of : Text → ℕ)
    (intn : ℕ → ℕ) (apply : Text → Option (List (CodeData Text))) (parse : Text → Time)
    (store : RobotApplyCode Text Time → Bool) where
  -- A code that is there already.
  unfoldable pub exists_code : Text → Text → Text → Option (RobotApplyCode Text Time)
  exists_code my_id sub_id robot =
      elim (ite (dec robot blank) (codes my_id sub_id) (codes_of my_id sub_id robot)) [
        | none ↦ none
        | some [] ↦ none
        | some (code ∷ rest) ↦ some code
      ]

  -- From the answer of the service on, which may have no code: `datas[0]`.
  unfoldable pub take_code :
      Text → Text → Option (List (CodeData Text)) → Outcome (RobotApplyCode Text Time)
  take_code my_id sub_id none = service_failed
  take_code my_id sub_id (some []) = panics
  take_code my_id sub_id (some (d ∷ ds)) =
      let code = new_code parse ten d my_id sub_id in
      if store code then created code else not_stored code

  unfoldable pub request_code : Text → Text → Option Text → Outcome (RobotApplyCode Text Time)
  request_code my_id sub_id none = panics
  request_code my_id sub_id (some serial) = take_code my_id sub_id (apply serial)

  -- From the choice of the robot on.
  unfoldable pub with_robots :
      Text → Text → Text → List (Robot Text) × Option Failure → Outcome (RobotApplyCode Text Time)
  with_robots my_id sub_id robot (robots, some e) = failed e
  with_robots my_id sub_id robot (robots, none) =
      request_code my_id sub_id (send_robot dec intn robot robots)

  unfoldable pub without_code :
      Text
      → Text
      → Text
      → Text
      → Option (RobotApplyCode Text Time)
      → Outcome (RobotApplyCode Text Time)
  without_code my_id sub_id robot limit (some code) = existing code
  without_code my_id sub_id robot limit none =
      with_robots my_id sub_id robot
        (valid_robots my_id (ite (dec limit blank) 10 (limit_of limit)))

  unfoldable pub fetch_apply_code : Text → Text → Text → Text → Outcome (RobotApplyCode Text Time)
  fetch_apply_code my_id sub_id robot limit =
      ite (dec my_id blank) error_my_id
        (without_code my_id sub_id robot limit (exists_code my_id sub_id robot))
