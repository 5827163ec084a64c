-- ===== src/Uchat/ChatHours/Examples.antt =====
-- Runs: a template is its text, a text is a number of hours, and a day starts at 0.
use zhiya.Prelude.{ℕ, ◌*◌, ◌≡◌, ◌↔◌, refl, Option, some}
use zhiya.Uchat.ChatHours.{Hours, fetched, time_closed, chat_template, second}
use zhiya.Uchat.ChatHours.Window.{IsOpen, chat_template-fetched_iff}

abbrev itself : ℕ → ℕ
itself n = n

-- From 22 o'clock until 6 o'clock.
abbrev night : ℕ → Option (Hours ℕ)
night n = some (record { start_time = 22; end_time = 6 })

abbrev hour : ℕ → Option ℕ
hour h = some (h * 3600 * second)

abbrev eleven_at_night : ℕ
eleven_at_night = 23 * 3600

chat_template_example :
    (chat_template itself night hour (some 1) (eleven_at_night * second) ≡ fetched 1)
    ↔ IsOpen (22 * 3600) (6 * 3600) eleven_at_night
chat_template_example =
    chat_template-fetched_iff itself night hour 1 (record { start_time = 22; end_time = 6 })
      (22 * 3600) (6 * 3600) eleven_at_night refl refl refl

closed_at_noon : chat_template itself night hour (some 1) (12 * 3600 * second) ≡ time_closed
unfolding chat_template
closed_at_noon = refl
