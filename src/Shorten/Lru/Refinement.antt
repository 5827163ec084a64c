-- ===== src/Shorten/Lru/Refinement.antt =====
-- shorten/lru.go: the cache does what the list of pairs does.
use zhiya.Prelude.{
  ℕ, suc, ◌≤◌, ◌<◌, ◌≡◌, refl, sym, ap, ap₂, ◌∙◌, Bool, true, false, none, some, List, [], ◌∷◌,
  arith, length, ltb, Option-cases, inl, inr, dec_lt,
}
use zhiya.Shorten.Lru
use zhiya.Shorten.Lru.{
  Element, Lru, new_lru, map_get, back, remove_element, drop_oldest, push_entry,
}
use zhiya.Shorten.Lru.Elements.{
  find_key, drop_key, find_key-back, drop_key-take, back-some, unlink-drop_key, length-drop_key,
  find_key-key,
}
use zhiya.Shorten.Lru.Methods.{
  add_hit, add_miss, get_hit, get_miss, remove_hit, remove_miss, map_get_miss,
}
use zhiya.Shorten.Lru.Spec.{
  view, Call, Reply, add, get, remove, remove_oldest, flag, oldest, init, last, spec_step, spec_run,
  step, run,
}
use zhiya.Shorten.Lru.Steps.{touched-IsLinked, remove_element-IsLinked, push_entry-IsLinked}
use zhiya.Shorten.Lru.Valid.{IsLinked, IsValid}
use zhiya.Shorten.Lru.View.{
  value_of, pair_of, lookup-view, without-view, last-view, init-view, length-view, take-view,
  take_short,
}

module _ {K V : Type 0} (dec : Discrete K) where
  -- A call left a valid cache with the pairs and the reply of the specification.
  pub record Agrees (c : Lru K V) (out : Lru K V × Reply K V) (spec : List (K × V) × Reply K V)
      : Type 0 where
    pub valid : IsValid dec out.0
    pub size : out.0.size ≡ c.size
    pub pairs : view out.0.evict_list ≡ spec.0
    pub reply : out.1 ≡ spec.1

  module _ (c : Lru K V) (ok : IsValid dec c) where
    touch-IsValid :
        (k : K) (e : Element K V) (v : V)
        → find_key dec k c.evict_list ≡ some e
        → IsValid dec
            (record c { evict_list = record e { value = v } ∷ drop_key dec k c.evict_list })
    touch-IsValid k e v h = record {
      positive = ok.positive;
      bounded = omega (arith, ok.bounded, length-drop_key dec k c.evict_list e h);
      ties = touched-IsLinked dec c k e v ok.ties h;
    }

    add-Agrees_hit :
        (k : K) (v : V) (e : Element K V)
        → find_key dec k c.evict_list ≡ some e
        → Agrees c (step dec c (add k v)) (spec_step dec c.size (view c.evict_list) (add k v))
    unfolding step spec_step
    add-Agrees_hit k v e h =
        let key = find_key-key dec k c.evict_list e h in
        rw
          (add_hit dec c ok.ties k e h v, lookup-view dec k c.evict_list ∙ ap value_of h, spec_step)
          (record {
            valid = touch-IsValid k e v h;
            size = refl;
            pairs = ap₂ (λ x l. (x, v) ∷ l) key (sym (without-view dec k c.evict_list));
            reply = refl;
          })

    get-Agrees_hit :
        (k : K) (e : Element K V)
        → find_key dec k c.evict_list ≡ some e
        → Agrees c (step dec c (get k)) (spec_step dec c.size (view c.evict_list) (get k))
    unfolding step spec_step
    get-Agrees_hit k e h =
        let key = find_key-key dec k c.evict_list e h in
        rw (get_hit dec c ok.ties k e h, lookup-view dec k c.evict_list ∙ ap value_of h, spec_step)
          (record {
            valid = touch-IsValid k e e.value h;
            size = refl;
            pairs = ap₂ (λ x l. (x, e.value) ∷ l) key (sym (without-view dec k c.evict_list));
            reply = refl;
          })

    get-Agrees_miss :
        (k : K)
        → find_key dec k c.evict_list ≡ none
        → Agrees c (step dec c (get k)) (spec_step dec c.size (view c.evict_list) (get k))
    unfolding step spec_step
    get-Agrees_miss k h =
        rw (get_miss dec c ok.ties k h, lookup-view dec k c.evict_list ∙ ap value_of h, spec_step)
          (record { valid = ok; size = refl; pairs = refl; reply = refl })

  removed_list :
      (c : Lru K V) (e : Element K V)
      → IsLinked dec c
      → find_key dec e.key c.evict_list ≡ some e
      → (remove_element dec c e).evict_list ≡ drop_key dec e.key c.evict_list
  unfolding remove_element
  removed_list c e t h = unlink-drop_key dec e.key c.evict_list e t.distinct h

  -- To remove an element that its key finds keeps the invariant, with room for one more.
  remove_element-IsValid :
      (c : Lru K V) (e : Element K V)
      → 0 < c.size
      → length c.evict_list ≤ suc c.size
      → IsLinked dec c
      → find_key dec e.key c.evict_list ≡ some e
      → IsValid dec (remove_element dec c e)
  remove_element-IsValid c e pos fits t h = record {
    positive = unfold remove_element in pos;
    bounded =
        rw (removed_list c e t h)
          (unfold remove_element in omega (arith, length-drop_key dec e.key c.evict_list e h));
    ties = remove_element-IsLinked dec c e t h;
  }

  size-remove_element : (c : Lru K V) (e : Element K V) → (remove_element dec c e).size ≡ c.size
  unfolding remove_element
  size-remove_element c e = refl

  module _ (c : Lru K V) (ok : IsValid dec c) where
    remove-Agrees_hit :
        (k : K) (e : Element K V)
        → find_key dec k c.evict_list ≡ some e
        → Agrees c (step dec c (remove k)) (spec_step dec c.size (view c.evict_list) (remove k))
    unfolding step spec_step
    remove-Agrees_hit k e h =
        let key = find_key-key dec k c.evict_list e h in
        let h' : find_key dec e.key c.evict_list ≡ some e =
          ap (λ x. find_key dec x c.evict_list) key ∙ h in
        rw
          (
            remove_hit dec c ok.ties k e h,
            lookup-view dec k c.evict_list ∙ ap value_of h,
            spec_step,
          )
          (record {
            valid = remove_element-IsValid c e ok.positive (omega (arith, ok.bounded)) ok.ties h';
            size = size-remove_element c e;
            pairs =
                ap view (removed_list c e ok.ties h')
                ∙ ap (λ x. view (drop_key dec x c.evict_list)) key
                ∙ sym (without-view dec k c.evict_list);
            reply = refl;
          })

    remove-Agrees_miss :
        (k : K)
        → find_key dec k c.evict_list ≡ none
        → Agrees c (step dec c (remove k)) (spec_step dec c.size (view c.evict_list) (remove k))
    unfolding step spec_step
    remove-Agrees_miss k h =
        rw
          (remove_miss dec c ok.ties k h, lookup-view dec k c.evict_list ∙ ap value_of h, spec_step)
          (record { valid = ok; size = refl; pairs = refl; reply = refl })

    remove_oldest-Agrees-none :
        back c.evict_list ≡ none
        → c.evict_list ≡ []
        → Agrees c
            (step dec c remove_oldest)
            (spec_step dec c.size (view c.evict_list) remove_oldest)
    unfolding step spec_step Lru.remove_oldest
    remove_oldest-Agrees-none h z =
        rw (h, Lru.remove_oldest)
          (record {
            valid = ok;
            size = refl;
            pairs = rw z (unfold init in refl);
            reply = rw z (unfold last in refl);
          })

    remove_oldest-Agrees-some :
        (e : Element K V)
        → back c.evict_list ≡ some e
        → (n : ℕ) → length c.evict_list ≡ suc n
        → Agrees c
            (step dec c remove_oldest)
            (spec_step dec c.size (view c.evict_list) remove_oldest)
    unfolding step spec_step Lru.remove_oldest
    remove_oldest-Agrees-some e h n p =
        let h' = find_key-back dec c.evict_list e ok.ties.distinct h in
        rw (h, Lru.remove_oldest)
          (record {
            valid = remove_element-IsValid c e ok.positive (omega (arith, ok.bounded)) ok.ties h';
            size = size-remove_element c e;
            pairs =
                ap view (
                  removed_list c e ok.ties h'
                  ∙ drop_key-take dec c.evict_list e n ok.ties.distinct h p)
                ∙ sym (init-view n c.evict_list p);
            reply = ap oldest (sym (last-view c.evict_list ∙ ap pair_of h));
          })

    add-Agrees_room :
        (k : K) (v : V)
        → find_key dec k c.evict_list ≡ none
        → length c.evict_list < c.size
        → Agrees c (step dec c (add k v)) (spec_step dec c.size (view c.evict_list) (add k v))
    unfolding step spec_step
    add-Agrees_room k v h room =
        let size = length-view c.evict_list in
        let fits : ltb c.size (suc (length c.evict_list)) ≡ false = ground arith in
        rw
          (
            add_miss dec c ok.ties k h v,
            fits,
            lookup-view dec k c.evict_list ∙ ap value_of h,
            spec_step,
          )
          (record {
            valid = record {
              positive = unfold push_entry in ok.positive;
              bounded = unfold push_entry in omega arith;
              ties = push_entry-IsLinked dec c k v ok.ties (map_get_miss dec c ok.ties k h);
            };
            size = unfold push_entry in refl;
            pairs = unfold push_entry in sym (take_short _ c.size (omega (arith, size)));
            reply = ap flag (ground (arith, size));
          })

    add-Agrees_full :
        (k : K) (v : V)
        → find_key dec k c.evict_list ≡ none
        → c.size ≡ length c.evict_list
        → Agrees c (step dec c (add k v)) (spec_step dec c.size (view c.evict_list) (add k v))
    unfolding step spec_step
    add-Agrees_full k v h full =
        let size = length-view c.evict_list in
        let over : ltb c.size (suc (length c.evict_list)) ≡ true = ground arith in
        let pushed = push_entry dec c k v in
        let t = push_entry-IsLinked dec c k v ok.ties (map_get_miss dec c ok.ties k h) in
        let (e, b) = back-some dec pushed.evict_list (unfold push_entry in omega arith) in
        let h' = find_key-back dec pushed.evict_list e t.distinct b in
        rw
          (
            add_miss dec c ok.ties k h v,
            over,
            lookup-view dec k c.evict_list ∙ ap value_of h,
            spec_step,
          )
          (unfold drop_oldest in
            rw (b, drop_oldest)
              (record {
                valid =
                    remove_element-IsValid pushed e (unfold push_entry in ok.positive)
                      (unfold push_entry in omega arith) t h';
                size = size-remove_element pushed e ∙ (unfold push_entry in refl);
                pairs =
                    ap view (
                      removed_list pushed e t h'
                      ∙ drop_key-take dec pushed.evict_list e c.size t.distinct b
                          (unfold push_entry in omega arith))
                    ∙ (unfold push_entry in sym (take-view c.size _));
                reply = ap flag (ground (arith, size));
              }))

    add-Agrees_miss :
        (k : K) (v : V)
        → find_key dec k c.evict_list ≡ none
        → Agrees c (step dec c (add k v)) (spec_step dec c.size (view c.evict_list) (add k v))
    add-Agrees_miss k v h = elim (dec_lt (length c.evict_list) c.size) [
      | yes room ↦ add-Agrees_room k v h room
      | no full ↦ add-Agrees_full k v h (omega (arith, ok.bounded))
    ]

  remove_oldest-Agrees :
      (c : Lru K V) (l : List (Element K V))
      → c.evict_list ≡ l
      → IsValid dec c
      → Agrees c (step dec c remove_oldest) (spec_step dec c.size (view c.evict_list) remove_oldest)
  remove_oldest-Agrees c [] p ok = remove_oldest-Agrees-none c ok (rw p (unfold back in refl)) p
  remove_oldest-Agrees c (f ∷ l) p ok =
      let (e, b) = back-some dec c.evict_list (rw p (omega arith)) in
      remove_oldest-Agrees-some c ok e b (length l) (ap length p)

  -- On a valid cache every call leaves a valid cache of the same size, and has the pairs and the
  -- reply of the specification.
  pub step-Agrees :
      (c : Lru K V) (x : Call K V)
      → IsValid dec c
      → Agrees c (step dec c x) (spec_step dec c.size (view c.evict_list) x)
  step-Agrees c (add k v) ok = elim (Option-cases (find_key dec k c.evict_list)) [
    | inl h ↦ add-Agrees_miss c ok k v h
    | inr (e, h) ↦ add-Agrees_hit c ok k v e h
  ]
  step-Agrees c (get k) ok = elim (Option-cases (find_key dec k c.evict_list)) [
    | inl h ↦ get-Agrees_miss c ok k h
    | inr (e, h) ↦ get-Agrees_hit c ok k e h
  ]
  step-Agrees c (remove k) ok = elim (Option-cases (find_key dec k c.evict_list)) [
    | inl h ↦ remove-Agrees_miss c ok k h
    | inr (e, h) ↦ remove-Agrees_hit c ok k e h
  ]
  step-Agrees c remove_oldest ok = remove_oldest-Agrees c c.evict_list refl ok

  run-spec_run-IsValid :
      (c : Lru K V) (xs : List (Call K V))
      → IsValid dec c
      → IsValid dec (run dec c xs).0
        × (view (run dec c xs).0.evict_list ≡ (spec_run dec c.size (view c.evict_list) xs).0)
        × ((run dec c xs).1 ≡ (spec_run dec c.size (view c.evict_list) xs).1)
  unfolding run spec_run
  run-spec_run-IsValid c [] ok = (ok, refl, refl)
  run-spec_run-IsValid c (x ∷ xs) ok =
      let a = step-Agrees c x ok in
      let (valid, pairs, replies) = run-spec_run-IsValid (step dec c x).0 xs a.valid in
      let move = ap₂ (λ n l. spec_run dec n l xs) a.size a.pairs in
      (
        valid,
        pairs ∙ ap (λ r. r.0) move,
        ap₂ (λ r rs. r ∷ rs) a.reply (replies ∙ ap (λ r. r.1) move),
      )

  new_lru_fields :
      (size : ℕ) (notify : Bool) (c : Lru K V)
      → new_lru size notify ≡ some c
      → (0 < size) × (c.size ≡ size) × (c.evict_list ≡ []) × (c.items ≡ [])
  unfolding new_lru
  new_lru_fields size notify c h = ground arith

  -- The constructor's cache is valid and empty.
  new_lru-IsValid :
      (size : ℕ) (notify : Bool) (c : Lru K V) → new_lru size notify ≡ some c → IsValid dec c
  new_lru-IsValid size notify c h =
      let (pos, same, none_listed, none_mapped) = new_lru_fields size notify c h in
      record {
        positive = omega arith;
        bounded = rw none_listed (omega arith);
        ties = record {
          distinct = rw none_listed tt;
          unique = rw none_mapped tt;
          counted = rw (none_listed, none_mapped) refl;
          linked = λ j. rw (none_listed, none_mapped) (unfold map_get find_key in refl);
          fresh = rw none_listed tt;
        };
      }

  -- A new cache, through any calls: it stays valid, holds the pairs of the specification in its
  -- order, and gives its replies.
  pub run-spec_run :
      (size : ℕ) (notify : Bool) (c : Lru K V) (xs : List (Call K V))
      → new_lru size notify ≡ some c
      → IsValid dec (run dec c xs).0
        × (view (run dec c xs).0.evict_list ≡ (spec_run dec size [] xs).0)
        × ((run dec c xs).1 ≡ (spec_run dec size [] xs).1)
  run-spec_run size notify c xs h =
      let (pos, same, none_listed, none_mapped) = new_lru_fields size notify c h in
      let (valid, pairs, replies) = run-spec_run-IsValid c xs (new_lru-IsValid size notify c h) in
      let start = ap₂ (λ n l. spec_run dec n (view l) xs) same none_listed in
      (valid, pairs ∙ ap (λ r. r.0) start, replies ∙ ap (λ r. r.1) start)
