-- ===== src/Shorten/T/Status.antt =====
-- shorten/t.go: the short links that a client gets, and the state that the test leaves.
use mathlib.Core.Logic.{if_pos, if_neg}
use zhiya.Prelude.{
  ℕ, ◌≤◌, ◌<◌, ◌≡◌, ◌≢◌, ◌↔◌, ◌⊎◌, inl, inr, refl, sym, ap, ◌∙◌, Bool, true, false, Option, none,
  some, List, [], ◌∷◌, arith, length, get_elem?, Option-cases, Bool-cases,
}
use zhiya.Shorten.T.{
  TConfig, Credential, Answer, T, read_urls, request_shorts, shorts, short, api, test_status,
}
use zhiya.Shorten.T.Shorts.{
  chosen, shorter, chosen-eq-none_iff, read_urls-chosen, chosen_full, length-chosen, chosen_at,
  get_elem?-some_lt,
}

abbrev head_of : {Text : Type 0} → Option (List Text) → Option Text
head_of none = none
head_of (some r) = get_elem? r 0

head_of-eq-none :
    {Text : Type 0} (o : Option (List Text)) → (head_of o ≡ none) ↔ ((o ≡ none) ⊎ (o ≡ some []))
head_of-eq-none none = (λ h. inl refl, λ h. refl)
head_of-eq-none (some []) = (λ h. inr refl, λ h. refl)
head_of-eq-none (some (x ∷ r)) = (λ h. cc, λ h. elim h [ inl e ↦ cc | inr e ↦ cc ])

chosen-eq-nil :
    {Text : Type 0} (links : List Text) (data' : List (Option Text))
    → (chosen links data' ≡ some []) ↔ (data' ≡ [])
unfolding chosen
chosen-eq-nil links data' =
    (λ h. no_length data' (sym (length-chosen links data' [] h)), λ e. rw e refl)
  where
    no_length : {A : Type 0} (l : List A) → length l ≡ 0 → l ≡ []
    no_length [] e = refl
    no_length (x ∷ l) e = absurd (omega arith)

first_of :
    {Text : Type 0} (link : Text) (data' : List (Option Text))
    → (head_of (chosen (link ∷ []) data') ≡ none)
      ↔ ((data' ≡ []) ⊎ ((k : ℕ) × (1 ≤ k) × (get_elem? data' k ≡ some none)))
first_of link data' =
    let (to_none, from_none) = chosen-eq-none_iff (link ∷ []) data' in
    let (to_nil, from_nil) = chosen-eq-nil (link ∷ []) data' in
    let (down, up) = head_of-eq-none (chosen (link ∷ []) data') in
    (
      λ h. elim (down h) [ inl e ↦ inr (to_none e) | inr e ↦ inl (to_nil e) ],
      λ h. elim h [ inl e ↦ up (inr (from_nil e)) | inr w ↦ up (inl (from_none w)) ],
    )

module _ {Text Body : Type 0} (dec : Discrete Text)
    (request : Credential Text → List Text → Option Body) (decode : Body → Option (Answer Text))
    (probe : Text → Bool) (blank test_url : Text) where
  abbrev read : TConfig Text → List Text → Option (List Text)
  read = request_shorts dec request decode probe blank test_url

  -- The service answered with these `urls`.
  pub record Answers (c : TConfig Text) (links : List Text) (data' : List (Option Text))
      : Type 0 where
    pub body : Body
    pub answer : Answer Text
    pub received : api dec request decode probe blank test_url c links ≡ some body
    pub decoded : decode body ≡ some answer
    pub listed : answer.urls ≡ some data'

  request_shorts-chosen :
      (c : TConfig Text) (links : List Text) (data' : List (Option Text))
      → Answers c links data'
      → 0 < length links
      → read c links ≡ chosen links data'
  unfolding request_shorts
  request_shorts-chosen c links data' a h =
      rw (request_shorts, a.received, a.decoded, a.listed) (read_urls-chosen links data' h)

  -- Either no list of short links arrives, and the links are returned as they are, or one does.
  answered :
      (c : TConfig Text) (links : List Text)
      → (read c links ≡ some links) ⊎ ((data' : List (Option Text)) × Answers c links data')
  unfolding request_shorts
  answered c links = elim (Option-cases (api dec request decode probe blank test_url c links)) [
    | inl e ↦ inl (rw (request_shorts, e) refl)
    | inr (b, e) ↦ elim (Option-cases (decode b)) [
      | inl e' ↦ inl (rw (request_shorts, e, e') refl)
      | inr (rst, e') ↦ elim (Option-cases rst.urls) [
        | inl e'' ↦ inl (rw (request_shorts, e, e', e'') refl)
        | inr (data', e'') ↦
            inr (data', record { body = b; answer = rst; received = e; decoded = e'; listed = e'' })
      ]
    ]
  ]

  -- Enabled, and with an answer to one link or more: `Shorts` panics exactly when an entry without
  -- a short link stands past the last link.
  pub shorts-eq-none_iff :
      (t : T Text) (links : List Text) (data' : List (Option Text))
      → t.short_enable ≡ true
      → 0 < length links
      → Answers t.config links data'
      → (shorts dec request decode probe blank test_url t links ≡ none)
        ↔ ((k : ℕ) × (length links ≤ k) × (get_elem? data' k ≡ some none))
  unfolding shorts
  shorts-eq-none_iff t links data' on h a =
      rw (on, request_shorts-chosen t.config links data' a h) (chosen-eq-none_iff links data')

  -- Enabled, and with an answer: every link that has an entry beside it is replaced by the entry's
  -- short link, if it has one, and else kept.
  pub shorts_at :
      (t : T Text) (links : List Text) (data' : List (Option Text)) (r : List Text) (k : ℕ)
      (link : Text) (o : Option Text)
      → t.short_enable ≡ true
      → Answers t.config links data'
      → shorts dec request decode probe blank test_url t links ≡ some r
      → get_elem? links k ≡ some link
      → get_elem? data' k ≡ some o
      → get_elem? r k ≡ some (shorter link o)
  unfolding shorts
  shorts_at t links data' r k link o on a h e e' =
      let long = get_elem?-some_lt links k link e in
      let same : shorts dec request decode probe blank test_url t links ≡ read t.config links =
        rw on refl in
      chosen_at links data' r k link o
        (sym (request_shorts-chosen t.config links data' a (omega arith)) ∙ sym same ∙ h) e e'

  -- Documented behaviour of the service: one entry for each link.
  abbrev pub OneEach : Type 0
  OneEach =
      (c : TConfig Text) (links : List Text) (data' : List (Option Text))
      → Answers c links data'
      → length data' ≡ length links

  read-length :
      (one_each : OneEach) (c : TConfig Text) (links : List Text)
      → (r : List Text) × (read c links ≡ some r) × (length r ≡ length links)
  unfolding request_shorts read_urls
  read-length one_each c [] = elim (answered c []) [
    | inl e ↦ ([], e, refl)
    | inr (data', a) ↦
        ([], rw (request_shorts, a.received, a.decoded, a.listed, read_urls) refl, refl)
  ]
  read-length one_each c (link ∷ links) = elim (answered c (link ∷ links)) [
    | inl e ↦ (link ∷ links, e, refl)
    | inr (data', a) ↦
        let (r, e, count) = chosen_full (link ∷ links) data' (one_each c (link ∷ links) data' a) in
        (r, request_shorts-chosen c (link ∷ links) data' a (omega arith) ∙ e, count)
  ]

  -- If the service gives one entry for each link, `Shorts` never panics and returns as many links
  -- as it is given.
  pub shorts-length :
      OneEach
      → (t : T Text) (links : List Text)
      → (r : List Text) × (shorts dec request decode probe blank test_url t links ≡ some r)
        × (length r ≡ length links)
  unfolding shorts
  shorts-length one_each t links = elim (Bool-cases t.short_enable) [
    | inl on ↦ rw on (read-length one_each t.config links)
    | inr off ↦ rw off (links, refl, refl)
  ]

  same_link : (a b : Text) → some (a ∷ []) ≡ some (b ∷ []) → a ≡ b
  same_link a b h = cc

  -- The test with a service that gives one entry for each link: it does not panic, keeps the
  -- configuration, and leaves the client enabled exactly when the test address has a short link,
  -- another than itself, whose download succeeds.
  pub test_status_lem :
      OneEach
      → (t : T Text)
      → (u : T Text) × (test_status dec request decode probe blank test_url t ≡ some u)
        × (u.config ≡ t.config)
        × ((u.short_enable ≡ true) ↔ (
            (link : Text) × (read t.config (test_url ∷ []) ≡ some (link ∷ []))
            × (link ≢ test_url)
            × (probe link ≡ true)))
  unfolding test_status
  test_status_lem one_each t =
      let (r, e, count) = read-length one_each t.config (test_url ∷ []) in after r e count
    where
      after :
          (r : List Text)
          → read t.config (test_url ∷ []) ≡ some r
          → length r ≡ 1
          → (u : T Text) × (test_status dec request decode probe blank test_url t ≡ some u)
            × (u.config ≡ t.config)
            × ((u.short_enable ≡ true) ↔ (
                (link : Text) × (read t.config (test_url ∷ []) ≡ some (link ∷ []))
                × (link ≢ test_url)
                × (probe link ≡ true)))
      after [] e count = absurd (omega arith)
      after (first ∷ q ∷ r) e count = absurd (omega arith)
      after (first ∷ []) e count = elim (dec first test_url) [
        | yes p ↦ (
          record t { short_enable = false },
          rw (test_status, e, if_pos (dec first test_url) p) refl,
          refl,
          (λ f. cc, λ other. absurd (other.2 (same_link other.0 first (sym other.1 ∙ e) ∙ p))),
        )
        | no p ↦ (
          record t { short_enable = probe first },
          rw (test_status, e, if_neg (dec first test_url) p) refl,
          refl,
          (
            λ f. (first, e, p, f),
            λ other. ap probe (same_link first other.0 (sym e ∙ other.1)) ∙ other.3,
          ),
        )
      ]

  -- Enabled, and with an answer to one link: `Short` panics exactly when the answer has no entry,
  -- or an entry without a short link after the first.
  pub short-eq-none_iff :
      (t : T Text) (link : Text) (data' : List (Option Text))
      → t.short_enable ≡ true
      → Answers t.config (link ∷ []) data'
      → (short dec request decode probe blank test_url t link ≡ none)
        ↔ ((data' ≡ []) ⊎ ((k : ℕ) × (1 ≤ k) × (get_elem? data' k ≡ some none)))
  unfolding short shorts
  short-eq-none_iff t link data' on a =
      rw (short, shorts, on, request_shorts-chosen t.config (link ∷ []) data' a (omega arith))
        (first_of link data')
