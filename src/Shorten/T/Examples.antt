-- ===== src/Shorten/T/Examples.antt =====
-- Runs of shorten/t.go, with numbers as texts: 0 is the empty text, and the service shortens n to
-- n + 1000.
use zhiya.Prelude.{
  ℕ, ◌+◌, ◌≤◌, ◌≡◌, ◌≢◌, ◌↔◌, ◌⊎◌, refl, sym, ap, ◌∙◌, Bool, true, false, Option, none, some, List,
  [], ◌∷◌, arith, length, length-map, map, get_elem?, ℕ_discrete, some-eq-some,
}
use zhiya.Shorten.T.{
  TConfig, Credential, Answer, T, request_shorts, shorts, short, api, ask, test_status,
}
use zhiya.Shorten.T.Shorts.{shorter}
use zhiya.Shorten.T.Status.{
  Answers, OneEach, shorts-eq-none_iff, short-eq-none_iff, shorts_at, shorts-length,
  test_status_lem,
}

-- The body of an answer is the list of the links.
abbrev ask_for : Credential ℕ → List ℕ → Option (List ℕ)
ask_for who links = some links

abbrev entry : ℕ → Option ℕ
entry link = some (link + 1000)

abbrev good_answer : List ℕ → Option (Answer ℕ)
good_answer links = some (record { has_error = false; urls = some (map entry links) })

abbrev empty_answer : List ℕ → Option (Answer ℕ)
empty_answer links = some (record { has_error = false; urls = some [] })

abbrev no_entry : List (Option ℕ)
no_entry = []

abbrev works : ℕ → Bool
works link = true

abbrev client : T ℕ
client = record { config = record { source = 0; token = 5 }; short_enable = true }

api_links :
    (c : TConfig ℕ) (links body : List ℕ)
    → api ℕ_discrete ask_for good_answer works 0 7 c links ≡ some body
    → body ≡ links
unfolding api ask
api_links c links body h = ground arith

good_service : OneEach ℕ_discrete ask_for good_answer works 0 7
good_service c links data' a =
    let same : map entry a.body ≡ data' =
      some-eq-some (ap (λ (r : Answer ℕ). r.urls) (some-eq-some a.decoded) ∙ a.listed) in
    sym (ap length same) ∙ length-map a.body entry ∙ ap length (api_links c links a.body a.received)

shorts-length_example :
    (r : List ℕ) × (shorts ℕ_discrete ask_for good_answer works 0 7 client (1 ∷ 2 ∷ []) ≡ some r)
    × (length r ≡ 2)
shorts-length_example =
    shorts-length ℕ_discrete ask_for good_answer works 0 7 good_service client (1 ∷ 2 ∷ [])

test_status_example :
    (u : T ℕ) × (test_status ℕ_discrete ask_for good_answer works 0 7 client ≡ some u)
    × (u.config ≡ client.config)
    × ((u.short_enable ≡ true) ↔ (
        (link : ℕ) × (request_shorts ℕ_discrete ask_for good_answer works 0 7 client.config (7 ∷ [])
          ≡ some (link ∷ []))
        × (link ≢ 7)
        × (works link ≡ true)))
test_status_example = test_status_lem ℕ_discrete ask_for good_answer works 0 7 good_service client

good-Answers :
    Answers ℕ_discrete ask_for good_answer works 0 7 client.config
      (1 ∷ 2 ∷ [])
      (some 1001 ∷ some 1002 ∷ [])
unfolding api ask ℕ_discrete
good-Answers = record {
  body = 1 ∷ 2 ∷ [];
  answer = record { has_error = false; urls = some (some 1001 ∷ some 1002 ∷ []) };
  received = refl;
  decoded = refl;
  listed = refl;
}

two_shorts :
    shorts ℕ_discrete ask_for good_answer works 0 7 client (1 ∷ 2 ∷ []) ≡ some (1001 ∷ 1002 ∷ [])
unfolding shorts request_shorts api ask ℕ_discrete zhiya.Shorten.T.read_urls zhiya.Shorten.T.fill
two_shorts = refl

shorts_at_example : get_elem? {A = ℕ} (1001 ∷ 1002 ∷ []) 1 ≡ some (shorter 2 (some 1002))
shorts_at_example =
    shorts_at ℕ_discrete ask_for good_answer works 0 7 client (1 ∷ 2 ∷ [])
      (some 1001 ∷ some 1002 ∷ []) (1001 ∷ 1002 ∷ []) 1 2 (some 1002) refl good-Answers two_shorts
      refl refl

empty-Answers :
    (link : ℕ) → Answers ℕ_discrete ask_for empty_answer works 0 7 client.config (link ∷ []) []
unfolding api ask ℕ_discrete
empty-Answers link = record {
  body = link ∷ [];
  answer = record { has_error = false; urls = some [] };
  received = refl;
  decoded = refl;
  listed = refl;
}

shorts-eq-none_example :
    (shorts ℕ_discrete ask_for good_answer works 0 7 client (1 ∷ 2 ∷ []) ≡ none)
    ↔ ((k : ℕ) × (2 ≤ k) × (get_elem? {A = Option ℕ} (some 1001 ∷ some 1002 ∷ []) k ≡ some none))
shorts-eq-none_example =
    shorts-eq-none_iff ℕ_discrete ask_for good_answer works 0 7 client (1 ∷ 2 ∷ [])
      (some 1001 ∷ some 1002 ∷ []) refl (omega arith) good-Answers

short-eq-none_example :
    (short ℕ_discrete ask_for empty_answer works 0 7 client 3 ≡ none)
    ↔ ((no_entry ≡ []) ⊎ ((k : ℕ) × (1 ≤ k) × (get_elem? no_entry k ≡ some none)))
short-eq-none_example =
    short-eq-none_iff ℕ_discrete ask_for empty_answer works 0 7 client 3 [] refl (empty-Answers 3)
