-- ===== src/Shorten/T/Shorts.antt =====
-- shorten/t.go: what the list of short links is.
use mathlib.Core.List.{append_assoc, append-nil}
use zhiya.Prelude.{
  ℕ, zero, suc, ◌+◌, ◌≤◌, ◌<◌, ◌≡◌, ◌↔◌, inl, inr, refl, sym, ap, ap₂, ◌∙◌, Option, none, some,
  List, [], ◌∷◌, ◌++◌, arith, length, get_elem?, length-append, Option-cases, some-eq-some,
}
use zhiya.Shorten.T.{fill, read_urls}

-- The service's short link, or else the link itself.
abbrev pub shorter : {Text : Type 0} → Text → Option Text → Text
shorter link none = link
shorter link (some s) = s

abbrev prefix : {Text : Type 0} → Text → Option (List Text) → Option (List Text)
prefix s none = none
prefix s (some l) = some (s ∷ l)

abbrev behind : {Text : Type 0} → List Text → Option (List Text) → Option (List Text)
behind l none = none
behind l (some r) = some (l ++ r)

-- The entries of the answer against the links: `none` when an entry without a short link has no
-- link beside it.
unfoldable pub chosen : {Text : Type 0} → List Text → List (Option Text) → Option (List Text)
chosen links [] = some []
chosen [] (none ∷ data') = none
chosen [] (some s ∷ data') = prefix s (chosen [] data')
chosen (link ∷ links) (o ∷ data') = prefix (shorter link o) (chosen links data')

get_elem?-eq-none :
    {A : Type 0} (links : List A) (k : ℕ) → length links ≤ k → get_elem? links k ≡ none
get_elem?-eq-none [] k h = refl
get_elem?-eq-none (x ∷ links) zero h = absurd (omega arith)
get_elem?-eq-none (x ∷ links) (suc k) h = get_elem?-eq-none links k (omega arith)

pub get_elem?-some_lt :
    {A : Type 0} (l : List A) (k : ℕ) (a : A) → get_elem? l k ≡ some a → k < length l
get_elem?-some_lt [] k a h = cc
get_elem?-some_lt (x ∷ l) zero a h = omega arith
get_elem?-some_lt (x ∷ l) (suc k) a h = omega (arith, get_elem?-some_lt l k a h)

module _ {Text : Type 0} where
  get_elem?-append :
      (before links : List Text) → get_elem? (before ++ links) (length before) ≡ get_elem? links 0
  get_elem?-append [] links = refl
  get_elem?-append (x ∷ before) links = get_elem?-append before links

  behind-prefix :
      (ret : List Text) (s : Text) (o : Option (List Text))
      → behind (ret ++ s ∷ []) o ≡ behind ret (prefix s o)
  behind-prefix ret s none = refl
  behind-prefix ret s (some r) = ap some (append_assoc ret (s ∷ []) r)

  -- Past the last link.
  fill-chosen-nil :
      (links : List Text) (k : ℕ) (data' : List (Option Text)) (ret : List Text)
      → length links ≤ k
      → fill links k data' ret ≡ behind ret (chosen [] data')
  unfolding fill chosen
  fill-chosen-nil links k [] ret h = ap some (sym (append-nil ret))
  fill-chosen-nil links k (none ∷ data') ret h = rw (get_elem?-eq-none links k h, fill) refl
  fill-chosen-nil links k (some s ∷ data') ret h =
      fill-chosen-nil links (k + 1) data' (ret ++ s ∷ []) (omega arith)
      ∙ behind-prefix ret s (chosen [] data')

  next :
      (before : List Text) (link : Text) (links : List Text) (data' : List (Option Text))
      (ret : List Text) (s : Text)
      → fill ((before ++ link ∷ []) ++ links) (length (before ++ link ∷ [])) data' (ret ++ s ∷ [])
        ≡ behind (ret ++ s ∷ []) (chosen links data')
      → fill (before ++ link ∷ links) (length before + 1) data' (ret ++ s ∷ [])
        ≡ behind ret (prefix s (chosen links data'))
  next before link links data' ret s h =
      let move : (before ++ link ∷ []) ++ links ≡ before ++ link ∷ links =
        append_assoc before (link ∷ []) links in
      let count : length (before ++ link ∷ []) ≡ length before + 1 =
        length-append before (link ∷ []) in
      ap₂ (λ l k. fill l k data' (ret ++ s ∷ [])) (sym move) (sym count)
      ∙ h
      ∙ behind-prefix ret s (chosen links data')

  fill-chosen :
      (before links : List Text) (data' : List (Option Text)) (ret : List Text)
      → fill (before ++ links) (length before) data' ret ≡ behind ret (chosen links data')
  unfolding fill chosen
  fill-chosen before [] data' ret =
      ap (λ l. fill l (length before) data' ret) (append-nil before)
      ∙ fill-chosen-nil before (length before) data' ret (omega arith)
  fill-chosen before (link ∷ links) [] ret = ap some (sym (append-nil ret))
  fill-chosen before (link ∷ links) (none ∷ data') ret =
      let e : get_elem? (before ++ link ∷ links) (length before) ≡ some link =
        get_elem?-append before (link ∷ links) in
      rw (fill, e)
        (next before link links data' ret link
          (fill-chosen (before ++ link ∷ []) links data' (ret ++ link ∷ [])))
  fill-chosen before (link ∷ links) (some s ∷ data') ret =
      next before link links data' ret s
        (fill-chosen (before ++ link ∷ []) links data' (ret ++ s ∷ []))

  chosen-eq-none :
      (links : List Text) (data' : List (Option Text)) (k : ℕ)
      → length links ≤ k
      → get_elem? data' k ≡ some none
      → chosen links data' ≡ none
  unfolding chosen
  chosen-eq-none links [] k h e = absurd (cc)
  chosen-eq-none [] (none ∷ data') k h e = refl
  chosen-eq-none [] (some s ∷ data') zero h e = cc
  chosen-eq-none [] (some s ∷ data') (suc k) h e =
      ap (prefix s) (chosen-eq-none [] data' k (omega arith) e)
  chosen-eq-none (link ∷ links) (o ∷ data') zero h e = absurd (omega arith)
  chosen-eq-none (link ∷ links) (o ∷ data') (suc k) h e =
      ap (prefix (shorter link o)) (chosen-eq-none links data' k (omega arith) e)

  prefix-eq-none : (s : Text) (o : Option (List Text)) → prefix s o ≡ none → o ≡ none
  prefix-eq-none s none h = refl
  prefix-eq-none s (some l) h = cc

  missing :
      (links : List Text) (data' : List (Option Text))
      → chosen links data' ≡ none
      → (k : ℕ) × (length links ≤ k) × (get_elem? data' k ≡ some none)
  unfolding chosen
  missing links [] h = cc
  missing [] (none ∷ data') h = (0, omega arith, refl)
  missing [] (some s ∷ data') h =
      let (k, long, e) = missing [] data' (prefix-eq-none s _ h) in (suc k, omega arith, e)
  missing (link ∷ links) (o ∷ data') h =
      let (k, long, e) = missing links data' (prefix-eq-none (shorter link o) _ h) in
      (suc k, omega arith, e)

  length-prefix :
      (s : Text) (o : Option (List Text)) (r : List Text)
      → prefix s o ≡ some r
      → (l : List Text) × (o ≡ some l) × (r ≡ s ∷ l)
  length-prefix s none r h = cc
  length-prefix s (some l) r h = (l, refl, cc)

  pub chosen-eq-none_iff :
      (links : List Text) (data' : List (Option Text))
      → (chosen links data' ≡ none)
        ↔ ((k : ℕ) × (length links ≤ k) × (get_elem? data' k ≡ some none))
  chosen-eq-none_iff links data' =
      (missing links data', λ t. chosen-eq-none links data' t.0 t.1 t.2)

  -- What `shorts` makes of the entries, for one link or more.
  pub read_urls-chosen :
      (links : List Text) (data' : List (Option Text))
      → 0 < length links
      → read_urls links data' ≡ chosen links data'
  unfolding read_urls
  read_urls-chosen [] data' h = absurd (omega arith)
  read_urls-chosen (link ∷ links) data' h =
      fill-chosen [] (link ∷ links) data' [] ∙ nothing_before (chosen (link ∷ links) data')
    where
      nothing_before : (o : Option (List Text)) → behind [] o ≡ o
      nothing_before none = refl
      nothing_before (some l) = refl

  pub length-chosen :
      (links : List Text) (data' : List (Option Text)) (r : List Text)
      → chosen links data' ≡ some r
      → length r ≡ length data'
  unfolding chosen
  length-chosen links [] r h = ground arith
  length-chosen [] (none ∷ data') r h = cc
  length-chosen [] (some s ∷ data') r h =
      let (l, e, e') = length-prefix s _ r h in ap length e' ∙ ap suc (length-chosen [] data' l e)
  length-chosen (link ∷ links) (o ∷ data') r h =
      let (l, e, e') = length-prefix (shorter link o) _ r h in
      ap length e' ∙ ap suc (length-chosen links data' l e)

  -- With an entry for each link, none is missing, and every one is read beside its link.
  pub chosen_full :
      (links : List Text) (data' : List (Option Text))
      → length data' ≡ length links
      → (r : List Text) × (chosen links data' ≡ some r) × (length r ≡ length links)
  chosen_full links data' h = elim (Option-cases (chosen links data')) [
    | inl e ↦
        let (k, long, gone) = missing links data' e in
        let none_there : get_elem? data' k ≡ none = get_elem?-eq-none data' k (omega arith) in cc
    | inr (r, e) ↦ (r, e, length-chosen links data' r e ∙ h)
  ]

  -- The entry beside a link decides what stands in its place.
  pub chosen_at :
      (links : List Text) (data' : List (Option Text)) (r : List Text) (k : ℕ) (link : Text)
      (o : Option Text)
      → chosen links data' ≡ some r
      → get_elem? links k ≡ some link
      → get_elem? data' k ≡ some o
      → get_elem? r k ≡ some (shorter link o)
  unfolding chosen
  chosen_at links [] r k link o h e e' = cc
  chosen_at [] (p ∷ data') r k link o h e e' = cc
  chosen_at (q ∷ links) (p ∷ data') r zero link o h e e' =
      let (l, f, f') = length-prefix (shorter q p) _ r h in
      rw f' (ap₂ (λ a b. some (shorter a b)) (some-eq-some e) (some-eq-some e'))
  chosen_at (q ∷ links) (p ∷ data') r (suc k) link o h e e' =
      let (l, f, f') = length-prefix (shorter q p) _ r h in
      rw f' (chosen_at links data' l k link o f e e')
