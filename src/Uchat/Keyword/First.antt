-- ===== src/Uchat/Keyword/First.antt =====
-- uchat/sync.go: which template answers a message, and when none does.
use zhiya.Prelude.{
  ℕ, zero, suc, ◌<◌, ◌≡◌, ◌↔◌, inl, inr, refl, ap, ◌∙◌, Bool, true, false, Option, none, some, List,
  [], ◌∷◌, arith, length, get_elem?, if◌then◌else◌, Option-cases, some-eq-some,
}
use zhiya.Uchat.Keyword.{
  Keyword, Params, Template, Reply, robot_message, no_regex_msg, panics, matches, has_regex, choose,
  reply_loop, custom_keyword_reply, same_text, twelve, all_text,
}

module _ (lower : List ℕ → List ℕ) where
  -- Some keyword matches.
  unfoldable pub any_matches : List ℕ → List Keyword → Bool
  any_matches msg [] = false
  any_matches msg (k ∷ ks) = if matches lower msg k then true else any_matches msg ks

  -- Going on after a match changes nothing.
  has_regex-true : (msg : List ℕ) (ks : List Keyword) → has_regex lower msg ks true ≡ true
  unfolding has_regex
  has_regex-true msg [] = refl
  has_regex-true msg (k ∷ ks) = ground (arith, has_regex-true msg ks)

  has_regex-any_matches :
      (msg : List ℕ) (ks : List Keyword) → has_regex lower msg ks false ≡ any_matches msg ks
  unfolding has_regex any_matches
  has_regex-any_matches msg [] = refl
  has_regex-any_matches msg (k ∷ ks) =
      ground (arith, has_regex-true msg ks, has_regex-any_matches msg ks)

present : {A : Type 0} (l : List A) (k : ℕ) → k < length l → (a : A) × (get_elem? l k ≡ some a)
present [] k h = absurd (omega arith)
present (x ∷ l) zero h = (x, refl)
present (x ∷ l) (suc k) h = present l k (omega arith)

abbrev answer_if :
    {Item : Type 0} → Bool → Params → Option (List Item) → Option (Params × List Item)
answer_if false params data' = none
answer_if true params none = none
answer_if true params (some d) = some (params, d)

module _ {Item : Type 0} (trim lower : List ℕ → List ℕ) (decode_params : List ℕ → Option Params)
    (decode_reply : List ℕ → Option (List Item)) where
  -- A template answers a message, given trimmed, when both its columns decode and one of its
  -- keywords matches.
  unfoldable pub answer : List ℕ → Template → Option (Params × List Item)
  answer msg t = elim (decode_params t.cmd_params) [
    | none ↦ none
    | some params ↦
        answer_if (any_matches lower msg params.keywords) params (decode_reply t.cmd_reply)
  ]

  -- The first template that answers.
  unfoldable pub first_answer : List ℕ → List Template → Option (Params × List Item)
  first_answer msg [] = none
  first_answer msg (t ∷ ts) = elim (answer msg t) [ none ↦ first_answer msg ts | some a ↦ some a ]

  module _ (intn : ℕ → ℕ) where
    unfoldable pub outcome_of : Option (Params × List Item) → Reply Item
    outcome_of none = no_regex_msg
    outcome_of (some (params, data')) = choose lower intn params data'

    reply_loop-first_answer :
        ((t : List ℕ) → trim (trim t) ≡ trim t)
        → (msg : List ℕ) (ts : List Template)
        → reply_loop trim lower decode_params decode_reply intn msg ts
          ≡ outcome_of (first_answer (trim msg) ts)
    unfolding reply_loop outcome_of first_answer answer
    reply_loop-first_answer again msg [] = refl
    reply_loop-first_answer again msg (t ∷ ts) =
        let untouched = reply_loop-first_answer again msg ts in
        let trimmed : reply_loop trim lower decode_params decode_reply intn (trim msg) ts
            ≡ outcome_of (first_answer (trim msg) ts) =
          reply_loop-first_answer again (trim msg) ts
          ∙ ap (λ m. outcome_of (first_answer m ts)) (again msg) in
        elim (Option-cases (decode_params t.cmd_params)) [
          | inl e ↦ rw (reply_loop, first_answer, answer, e) untouched
          | inr (params, e) ↦
              let same = has_regex-any_matches lower (trim msg) params.keywords in
              rw (reply_loop, first_answer, answer, e, same)
                (by_match params (any_matches lower (trim msg) params.keywords)
                  (decode_reply t.cmd_reply) _ _ trimmed)
        ]
      where
        by_match :
            (params : Params) (found : Bool) (data' : Option (List Item)) (rest : Reply Item)
            (later : Option (Params × List Item))
            → rest ≡ outcome_of later
            → (if found
                then elim data' [ none ↦ rest | some d ↦ choose lower intn params d ]
                else rest)
              ≡ outcome_of (elim (answer_if found params data') [ none ↦ later | some a ↦ some a ])
        by_match params false data' rest later h = h
        by_match params true none rest later h = h
        by_match params true (some d) rest later h = refl

    -- With a TrimSpace that has nothing left to do the second time: a message that a robot sent
    -- gets no reply; for any other, the first template that answers it decides, with all of its
    -- reply or one item of it, and without such a template there is the error `no regex msg`.
    pub custom_keyword_reply_lem :
        ((t : List ℕ) → trim (trim t) ≡ trim t)
        → (ts : List Template) (msg platform_msg_type : List ℕ)
        → custom_keyword_reply trim lower decode_params decode_reply intn
            (some ts)
            msg
            platform_msg_type
          ≡ (if same_text platform_msg_type twelve
              then robot_message
              else outcome_of (first_answer (trim msg) ts))
    unfolding custom_keyword_reply
    custom_keyword_reply_lem again ts msg platform_msg_type =
        ap (λ r. if same_text platform_msg_type twelve then robot_message else r)
          (reply_loop-first_answer again msg ts)

    choose-eq-panics_iff :
        ((n : ℕ) → 0 < n → intn n < n)
        → (params : Params) (data' : List Item)
        → (choose lower intn params data' ≡ panics)
          ↔ ((data' ≡ []) × (same_text (lower params.reply_type) all_text ≡ false))
    unfolding choose
    choose-eq-panics_iff below params [] = ground arith
    choose-eq-panics_iff below params (x ∷ d) =
        let (item, e) =
          present (x ∷ d) (intn (suc (length d))) (below (suc (length d)) (omega arith)) in
        let chosen : (choose lower intn params (x ∷ d) ≡ panics) → ⊥ = ground (arith, e) in
        (λ h. absurd (chosen h), λ h. absurd (cons h.0))
      where
        cons : {A : Type 0} {x : A} {l : List A} → x ∷ l ≡ [] → ⊥
        cons h = cc

    outcome_of-eq-panics_iff :
        ((n : ℕ) → 0 < n → intn n < n)
        → (a : Option (Params × List Item))
        → (outcome_of a ≡ panics) ↔ (
            (params : Params) × (a ≡ some (params, []))
            × (same_text (lower params.reply_type) all_text ≡ false))
    unfolding outcome_of
    outcome_of-eq-panics_iff below none = (λ h. cc, λ h. cc)
    outcome_of-eq-panics_iff below (some (params, data')) =
        let (to, from) = choose-eq-panics_iff below params data' in
        (
          λ h. (params, ap (λ d. some (params, d)) (to h).0, (to h).1),
          λ h.
              let same : (params, data') ≡ (h.0, []) = some-eq-some h.1 in
              from (
                ap (λ a. a.1) same,
                ap (λ a. same_text (lower a.0.reply_type) all_text) same ∙ h.2,
              ),
        )

    -- With a TrimSpace as before and a rand.Intn that gives a number below its argument: the
    -- function panics exactly when the message is not a robot's and the first template that answers
    -- it has an empty reply, of which it wants one item.
    pub custom_keyword_reply-eq-panics_iff :
        ((t : List ℕ) → trim (trim t) ≡ trim t)
        → ((n : ℕ) → 0 < n → intn n < n)
        → (ts : List Template) (msg platform_msg_type : List ℕ)
        → (custom_keyword_reply trim lower decode_params decode_reply intn
              (some ts)
              msg
              platform_msg_type
            ≡ panics)
          ↔ ((same_text platform_msg_type twelve ≡ false)
              × ((params : Params) × (first_answer (trim msg) ts ≡ some (params, []))
                  × (same_text (lower params.reply_type) all_text ≡ false)))
    custom_keyword_reply-eq-panics_iff again below ts msg platform_msg_type =
        rw (custom_keyword_reply_lem again ts msg platform_msg_type) (
          by_type (same_text platform_msg_type twelve)
            (outcome_of-eq-panics_iff below (first_answer (trim msg) ts)))
      where
        by_type :
            {P : Type 0} {r : Reply Item} (robot : Bool)
            → ((r ≡ panics) ↔ P)
            → ((if robot then robot_message else r) ≡ panics) ↔ ((robot ≡ false) × P)
        by_type true h = (λ e. cc, λ e. cc)
        by_type false h = (λ e. (refl, h.0 e), λ e. h.1 e.1)
