-- ===== src/Uchat/ChatHours.antt =====
-- uchat/sync.go: FetchChatRoomIntelligentChatTemplate, which chats only between two times of day.
-- An instant is a number of nanoseconds. Parameters: the template that GetChatRoomValidTemplate
-- finds, json.Unmarshal of its column, and time.ParseInLocation of a time on today's date.
pub mod Window
mod Examples
use zhiya.Prelude.{
  ℕ, ◌-◌, ◌/◌, ◌*◌, Bool, true, false, ◌&&◌, ◌||◌, Option, none, some, ltb, if◌then◌else◌,
}

abbrev pub second : ℕ
second = 1000000000

-- `int64(a.Sub(b)/time.Second) > 0` and `int64(a.Sub(b)/time.Second) < 0`: the division drops the
-- fraction, towards 0.
abbrev pub is_after : ℕ → ℕ → Bool
is_after a b = ltb 0 ((a - b) / second)

abbrev pub is_before : ℕ → ℕ → Bool
is_before a b = ltb 0 ((b - a) / second)

-- The texts of `start_time` and `end_time` in the template's parameters.
pub record Hours (Text : Type 0) : Type 0 where
  pub start_time : Text
  pub end_time : Text

-- The template, or the error of the step that failed.
pub data Fetched (Template : Type 0) : Type 0 where
  no_template : Fetched Template
  bad_params : Fetched Template
  bad_start : Fetched Template
  bad_end : Fetched Template
  time_closed : Fetched Template
  fetched : Template → Fetched Template

module _ {Template Text : Type 0} (cmd_params : Template → Text)
    (decode : Text → Option (Hours Text)) (parse : Text → Option ℕ) where
  unfoldable pub chat_template : Option Template → ℕ → Fetched Template
  chat_template found msg_date = elim found [
    | none ↦ no_template
    | some template ↦ elim (decode (cmd_params template)) [
      | none ↦ bad_params
      | some params ↦ elim (parse params.start_time) [
        | none ↦ bad_start
        | some start ↦ elim (parse params.end_time) [
          | none ↦ bad_end
          | some stop ↦
              if is_before stop start
              then (if is_after msg_date start || is_before msg_date stop
                  then fetched template
                  else time_closed)
              else (if is_after msg_date start && is_before msg_date stop
                  then fetched template
                  else time_closed)
        ]
      ]
    ]
  ]
