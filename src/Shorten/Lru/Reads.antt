-- ===== src/Shorten/Lru/Reads.antt =====
-- shorten/lru.go: the methods that only read, and `Purge`.
use mathlib.Core.List.{append_assoc, reverse_aux, map-map}
use zhiya.Prelude.{
  ℕ, ◌+◌, ◌≡◌, refl, sym, ap, ◌∙◌, Bool, true, false, Option, none, some, List, [], ◌∷◌, ◌++◌,
  arith, length, map, reverse, replicate, inl, inr, Option-cases, length-append, if◌then◌else◌,
}
use zhiya.Shorten.Lru.{
  Element, Lru, find_element, map_get, contains, peek, get_oldest, len, write_key, keys_loop, keys,
  purge, purge_calls,
}
use zhiya.Shorten.Lru.Elements.{find_key, AreDistinct, find_element-find_key}
use zhiya.Shorten.Lru.Map.{IsMap}
use zhiya.Shorten.Lru.Methods.{peek_hit, peek_miss, contains_hit, contains_miss}
use zhiya.Shorten.Lru.Spec.{view, lookup, last}
use zhiya.Shorten.Lru.Valid.{IsValid, id_of}
use zhiya.Shorten.Lru.View.{value_of, lookup-view, last-view, length-view}

module _ {K : Type 0} where
  write_key-append :
      (done : List (Option K)) (k : K) (rest : List (Option K))
      → write_key (done ++ none ∷ rest) (length done) k ≡ some (done ++ some k ∷ rest)
  unfolding write_key
  write_key-append [] k rest = refl
  write_key-append (x ∷ done) k rest = ground (arith, write_key-append done k rest)

abbrev pub is_some : {A : Type 0} → Option A → Bool
is_some none = false
is_some (some a) = true

module _ {K V : Type 0} where
  abbrev keys_of : List (Element K V) → List (Option K)
  keys_of = map (λ e. some e.key)

  keys_loop-append :
      (l : List (Element K V)) (done : List (Option K))
      → keys_loop l (length done) (done ++ replicate (length l) none) ≡ some (done ++ keys_of l)
  unfolding keys_loop
  keys_loop-append [] done = refl
  keys_loop-append (e ∷ l) done =
      rw (write_key-append done e.key (replicate (length l) none), keys_loop)
        (simp (append_assoc, length-append) at (keys_loop-append l (done ++ some e.key ∷ [])))

length-reverse_aux : {A : Type 0} (l r : List A) → length (reverse_aux l r) ≡ length l + length r
length-reverse_aux [] r = omega arith
length-reverse_aux (x ∷ l) r = omega (arith, length-reverse_aux l (x ∷ r))

map-reverse_aux :
    {A B : Type 0} (f : A → B) (l r : List A)
    → map f (reverse_aux l r) ≡ reverse_aux (map f l) (map f r)
map-reverse_aux f [] r = refl
map-reverse_aux f (x ∷ l) r = map-reverse_aux f l (x ∷ r)

module _ {K V : Type 0} (dec : Discrete K) (c : Lru K V) (ok : IsValid dec c) where
  pub peek-lookup : (k : K) → peek dec c k ≡ lookup dec k (view c.evict_list)
  peek-lookup k = elim (Option-cases (find_key dec k c.evict_list)) [
    | inl h ↦ peek_miss dec c ok.ties k h ∙ sym (lookup-view dec k c.evict_list ∙ ap value_of h)
    | inr (e, h) ↦
        peek_hit dec c ok.ties k e h ∙ sym (lookup-view dec k c.evict_list ∙ ap value_of h)
  ]

  pub contains-lookup : (k : K) → contains dec c k ≡ is_some (lookup dec k (view c.evict_list))
  contains-lookup k = elim (Option-cases (find_key dec k c.evict_list)) [
    | inl h ↦
        contains_miss dec c ok.ties k h
        ∙ sym (ap is_some (lookup-view dec k c.evict_list ∙ ap value_of h))
    | inr (e, h) ↦
        contains_hit dec c ok.ties k e h
        ∙ sym (ap is_some (lookup-view dec k c.evict_list ∙ ap value_of h))
  ]

  -- `Keys` fills its array exactly, without a hole or an index out of range: the keys from the
  -- oldest to the most recent.
  pub keys-reverse : keys c ≡ some (map (λ p. some p.0) (reverse (view c.evict_list)))
  unfolding keys
  keys-reverse =
      let l = c.evict_list in
      let count : length c.items ≡ length (reverse l) =
        ok.ties.counted ∙ sym (length-reverse_aux l [] ∙ (omega arith)) in
      ap (λ n. keys_loop (reverse l) 0 (replicate n none)) count
      ∙ keys_loop-append (reverse l) []
      ∙ ap some (
          sym (map-map (λ p. some p.0) (λ e. (e.key, e.value)) (reverse l))
          ∙ ap (map (λ p. some p.0)) (map-reverse_aux (λ e. (e.key, e.value)) l []))

  -- The reading methods give what the pairs hold.
  pub reads-view :
      (k : K)
      → (peek dec c k ≡ lookup dec k (view c.evict_list))
        × (contains dec c k ≡ is_some (lookup dec k (view c.evict_list)))
        × (get_oldest c ≡ last (view c.evict_list))
        × (len c ≡ length (view c.evict_list))
        × (keys c ≡ some (map (λ p. some p.0) (reverse (view c.evict_list))))
  unfolding get_oldest len
  reads-view k = (
    peek-lookup k,
    contains-lookup k,
    ground (arith, last-view c.evict_list),
    sym (length-view c.evict_list),
    keys-reverse,
  )

module _ {K V : Type 0} (dec : Discrete K) where
  -- One call of the callback for each key of the map, with its value.
  lookup-purge_calls :
      (k : K) (m : List (K × ℕ)) (l : List (Element K V))
      → IsMap dec m
      → lookup dec k (purge_calls m l)
        ≡ elim (map_get dec k m) [ none ↦ none | some i ↦ value_of (find_element i l) ]
  unfolding lookup purge_calls map_get
  lookup-purge_calls k [] l h = refl
  lookup-purge_calls k ((q, i) ∷ m) l h = ground (arith, lookup-purge_calls k m l h.1)

  find_element_value :
      (k : K) (l : List (Element K V)) (o : Option (Element K V))
      → AreDistinct dec l
      → find_key dec k l ≡ o
      → elim (id_of o) [ none ↦ none | some i ↦ value_of (find_element i l) ] ≡ value_of o
  find_element_value k l none d h = refl
  find_element_value k l (some e) d h = ap value_of (find_element-find_key dec k l e d h)

  -- `Purge` leaves a valid, empty cache; with a callback, the calls that `Purge` makes give
  -- each key the value that the cache had for it, and name no other key.
  pub purge-view :
      (c : Lru K V)
      → IsValid dec c
      → IsValid dec (purge c)
        × (view (purge c).evict_list ≡ [])
        × ((k : K)
            → lookup dec k (purge_calls c.items c.evict_list) ≡ lookup dec k (view c.evict_list))
        × ((purge c).evicted
            ≡ (if c.notify then c.evicted ++ purge_calls c.items c.evict_list else c.evicted))
  unfolding purge
  purge-view c ok = (
    record {
      positive = ok.positive;
      bounded = omega arith;
      ties = record {
        distinct = tt;
        unique = tt;
        counted = refl;
        linked = λ j. unfold map_get find_key in refl;
        fresh = tt;
      };
    },
    refl,
    λ k.
        lookup-purge_calls k c.items c.evict_list ok.ties.unique
        ∙ ap (λ o. elim o [ none ↦ none | some i ↦ value_of (find_element i c.evict_list) ])
            (ok.ties.linked k)
        ∙ find_element_value k c.evict_list (find_key dec k c.evict_list) ok.ties.distinct refl
        ∙ sym (lookup-view dec k c.evict_list),
    refl,
  )
