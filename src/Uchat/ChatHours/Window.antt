-- ===== src/Uchat/ChatHours/Window.antt =====
-- uchat/sync.go: when the template is open, in whole seconds.
use zhiya.Prelude.{ℕ, ◌*◌, ◌≤◌, ◌<◌, ◌≡◌, ◌↔◌, ◌⊎◌, Option, some, ltb, arith}
use zhiya.Uchat.ChatHours.{Hours, fetched, chat_template, second, is_after, is_before}

-- Between the two times of one day, or across midnight when the end comes before the start.
abbrev pub IsOpen : ℕ → ℕ → ℕ → Type 0
IsOpen start stop now =
    ((start ≤ stop) × (start < now) × (now < stop))
    ⊎ ((stop < start) × ((start < now) ⊎ (now < stop)))

-- On whole seconds the tests compare.
is_after_lem : (a b : ℕ) → is_after (a * second) (b * second) ≡ ltb b a
is_after_lem a b = ground arith

is_before_lem : (a b : ℕ) → is_before (a * second) (b * second) ≡ ltb a b
is_before_lem a b = ground arith

module _ {Template Text : Type 0} (cmd_params : Template → Text)
    (decode : Text → Option (Hours Text)) (parse : Text → Option ℕ) where
  -- With parameters that decode and times on whole seconds, the template is returned exactly when
  -- the second of the message lies strictly between the two times, or, if the end comes before the
  -- start, after the start or before the end.
  pub chat_template-fetched_iff :
      (template : Template) (hours : Hours Text) (start stop now : ℕ)
      → decode (cmd_params template) ≡ some hours
      → parse hours.start_time ≡ some (start * second)
      → parse hours.end_time ≡ some (stop * second)
      → (chat_template cmd_params decode parse (some template) (now * second) ≡ fetched template)
        ↔ IsOpen start stop now
  unfolding chat_template
  chat_template-fetched_iff template hours start stop now d p q =
      rw
        (
          chat_template,
          d,
          p,
          q,
          is_before_lem stop start,
          is_after_lem now start,
          is_before_lem now stop,
        )
        (ground arith)
