-- ===== src/Uchat/Keyword/Examples.antt =====
-- Runs of the keyword replies: a template's columns are decoded by fixed functions.
use zhiya.Prelude.{
  ℕ, ◌-◌, ◌<◌, ◌≡◌, ◌↔◌, refl, arith, false, Option, none, some, List, [], ◌∷◌, if◌then◌else◌,
}
use zhiya.Uchat.Keyword.{
  Params, Template, robot_message, panics, reply, custom_keyword_reply, same_text, twelve, all_text,
  like_text, reply_loop, has_regex, matches, choose,
}
use zhiya.Uchat.Keyword.First.{
  first_answer, outcome_of, custom_keyword_reply_lem, custom_keyword_reply-eq-panics_iff,
}

abbrev same : List ℕ → List ℕ
same t = t

abbrev greeting : List ℕ
greeting = b'h' ∷ b'i' ∷ []

-- An empty column does not decode.
abbrev params_of : List ℕ → Option Params
params_of [] = none
params_of (c ∷ t) =
    some
      (record { reply_type = []; keywords = record { filter = like_text; keyword = c ∷ t } ∷ [] })

abbrev items_of : List ℕ → Option (List ℕ)
items_of t = some t

abbrev last_of : ℕ → ℕ
last_of n = n - 1

abbrev templates : List Template
templates =
    record { cmd_params = []; cmd_reply = 1 ∷ [] }
    ∷ record { cmd_params = b'h' ∷ []; cmd_reply = 4 ∷ 5 ∷ [] }
    ∷ []

abbrev without_reply : List Template
without_reply = record { cmd_params = b'i' ∷ []; cmd_reply = [] } ∷ []

last_item :
    custom_keyword_reply same same params_of items_of last_of (some templates) greeting []
    ≡ reply (5 ∷ [])
unfolding custom_keyword_reply reply_loop has_regex matches choose
last_item = refl

custom_keyword_reply_example :
    custom_keyword_reply same same params_of items_of last_of (some templates) greeting [] ≡ (
      if same_text [] twelve
      then robot_message
      else outcome_of same same params_of items_of last_of
          (first_answer same same params_of items_of greeting templates))
custom_keyword_reply_example =
    custom_keyword_reply_lem same same params_of items_of last_of (λ t. refl) templates greeting []

last_of-lt : (n : ℕ) → 0 < n → last_of n < n
last_of-lt n h = omega arith

no_item_example :
    (custom_keyword_reply same same params_of items_of last_of (some without_reply) greeting []
      ≡ panics)
    ↔ ((same_text [] twelve ≡ false)
        × ((params : Params) × (first_answer same same params_of items_of greeting without_reply
              ≡ some (params, []))
            × (same_text (same params.reply_type) all_text ≡ false)))
no_item_example =
    custom_keyword_reply-eq-panics_iff same same params_of items_of last_of (λ t. refl) last_of-lt
      without_reply greeting []

it_panics :
    custom_keyword_reply same same params_of items_of last_of (some without_reply) greeting []
    ≡ panics
unfolding custom_keyword_reply reply_loop has_regex matches choose
it_panics = refl
