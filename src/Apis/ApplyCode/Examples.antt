-- ===== src/Apis/ApplyCode/Examples.antt =====
-- Runs with numbers as texts and as times; 0 is the empty text.
use mathlib.Core.Logic.{ite}
use zhiya.Prelude.{
  ℕ, ◌-◌, ◌<◌, ◌≡◌, ◌≢◌, ◌↔◌, ◌==◌, if◌then◌else◌, refl, Bool, true, false, Option, none, some,
  List, [], ◌∷◌, arith, get_elem?, ℕ_discrete,
}
use zhiya.Apis.ApplyCode.{
  Robot, CodeData, RobotApplyCode, panics, usable, find_valid_robot, find_valid_code_robot,
  code_robots, some_robots, send_robot, fetch_apply_code, exists_code, without_code, with_robots,
  request_code, take_code, prefer,
}
use zhiya.Apis.ApplyCode.Usable.{
  find_valid_code_robot_sound, find_valid_code_robot_complete, send_robot_wanted,
  fetch_apply_code-eq-panics_iff,
}

abbrev robot : ℕ → Robot ℕ
robot n = record { serial_no = n; status = 10 }

abbrev broken : Robot ℕ
broken = record { serial_no = 6; status = 11 }

abbrev own : ℕ → Option (List ℕ)
own my_id = some (4 ∷ 5 ∷ 6 ∷ [])

abbrev free : List ℕ → List (Robot ℕ) × Bool
free ids = (robot 4 ∷ broken ∷ robot 5 ∷ [], false)

abbrev three_used : ℕ → ℕ
three_used serial = 3

abbrev last_index : ℕ → ℕ
last_index n = n - 1

last_index-lt : (n : ℕ) → 0 < n → last_index n < n
last_index-lt n h = omega arith

two_robots : find_valid_code_robot own free three_used 8 10 ≡ (robot 4 ∷ robot 5 ∷ [], none)
unfolding find_valid_code_robot find_valid_robot code_robots some_robots usable
two_robots = refl

sound_example :
    ((robot 5).status ≡ 10)
    × (three_used 5 < 10)
    × ((j : ℕ) × (get_elem? (find_valid_robot own free 8).0 j ≡ some (robot 5)))
sound_example =
    find_valid_code_robot_sound own free three_used 8 10 (robot 4 ∷ robot 5 ∷ []) 1 (robot 5)
      two_robots refl

no_failure : (find_valid_robot own free 8).1 ≡ none
unfolding find_valid_robot
no_failure = refl

third_robot : get_elem? (find_valid_robot own free 8).0 2 ≡ some (robot 5)
unfolding find_valid_robot
third_robot = refl

complete_example :
    (k : ℕ) × (find_valid_code_robot own free three_used 8 10
      ≡ (usable three_used 10 (find_valid_robot own free 8).0, none))
    × (get_elem? (usable three_used 10 (find_valid_robot own free 8).0) k ≡ some (robot 5))
complete_example =
    find_valid_code_robot_complete own free three_used 8 10 2 (robot 5) no_failure third_robot refl
      (omega arith)

send_robot_wanted_example : send_robot ℕ_discrete last_index 4 (robot 4 ∷ robot 5 ∷ []) ≡ some 4
send_robot_wanted_example =
    send_robot_wanted ℕ_discrete last_index last_index-lt 4 (robot 4 ∷ robot 5 ∷ []) 0 (robot 4)
      refl refl

abbrev no_codes : ℕ → ℕ → Option (List (RobotApplyCode ℕ ℕ))
no_codes my_id sub_id = some []

abbrev no_codes_of : ℕ → ℕ → ℕ → Option (List (RobotApplyCode ℕ ℕ))
no_codes_of my_id sub_id serial = none

abbrev itself : ℕ → ℕ
itself n = n

abbrev data_for : ℕ → CodeData ℕ
data_for serial = record {
  vc_robot_serial_no = serial;
  vc_nick_name = 1;
  vc_chat_room_serial_no = 0;
  dt_end_date = 20;
  vc_serial_no = 2;
  vc_code = 3;
  vc_code_images = 4;
  dt_create_date = 10;
}

-- The service has no code for the robot 4.
abbrev answers : ℕ → Option (List (CodeData ℕ))
answers serial = if serial == 4 then some [] else some (data_for serial ∷ [])

abbrev stores : RobotApplyCode ℕ ℕ → Bool
stores code = true

fetch_apply_code-eq-panics_iff_example :
    (fetch_apply_code ℕ_discrete 0 10 no_codes no_codes_of
        (find_valid_code_robot own free three_used)
        itself
        last_index
        answers
        itself
        stores
        8
        9
        4
        0
      ≡ panics)
    ↔ ((◌≢◌ {A = ℕ} 8 0)
        × (exists_code ℕ_discrete 0 10 no_codes no_codes_of
              (find_valid_code_robot own free three_used)
              itself
              last_index
              answers
              itself
              stores
              8
              9
              4
            ≡ none)
        × ((robots : List (Robot ℕ)) × (serial : ℕ) × (find_valid_code_robot own free three_used 8
                (ite (ℕ_discrete 0 0) 10 (itself 0))
              ≡ (robots, none))
            × (send_robot ℕ_discrete last_index 4 robots ≡ some serial)
            × (answers serial ≡ some [])))
fetch_apply_code-eq-panics_iff_example =
    fetch_apply_code-eq-panics_iff ℕ_discrete 0 10 no_codes no_codes_of own free three_used itself
      last_index answers itself stores last_index-lt 8 9 4 0

-- It panics, where the robot 4 is asked for.
panics_run :
    fetch_apply_code ℕ_discrete 0 10 no_codes no_codes_of
      (find_valid_code_robot own free three_used)
      itself
      last_index
      answers
      itself
      stores
      8
      9
      4
      0
    ≡ panics
unfolding fetch_apply_code exists_code without_code with_robots request_code take_code send_robot
    prefer find_valid_code_robot find_valid_robot code_robots some_robots usable ℕ_discrete
panics_run = refl
