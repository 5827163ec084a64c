-- ===== src/Shorten/Lru/View.antt =====
-- shorten/lru.go: the list of elements seen as pairs.
use zhiya.Prelude.{
  ℕ, zero, suc, ◌≤◌, ◌≡◌, refl, ap, Option, none, some, List, [], ◌∷◌, arith, length, take,
}
use zhiya.Shorten.Lru.{Element, back}
use zhiya.Shorten.Lru.Elements.{find_key, drop_key}
use zhiya.Shorten.Lru.Spec.{view, lookup, without, last, init}

abbrev pub value_of : {K V : Type 0} → Option (Element K V) → Option V
value_of none = none
value_of (some e) = some e.value

abbrev pub pair_of : {K V : Type 0} → Option (Element K V) → Option (K × V)
pair_of none = none
pair_of (some e) = some (e.key, e.value)

module _ {K V : Type 0} (dec : Discrete K) where
  pub lookup-view :
      (k : K) (l : List (Element K V)) → lookup dec k (view l) ≡ value_of (find_key dec k l)
  unfolding lookup find_key
  lookup-view k [] = refl
  lookup-view k (e ∷ l) = ground (arith, lookup-view k l)

  pub without-view :
      (k : K) (l : List (Element K V)) → without dec k (view l) ≡ view (drop_key dec k l)
  unfolding without drop_key
  without-view k [] = refl
  without-view k (e ∷ l) = ground (arith, without-view k l)

module _ {K V : Type 0} where
  pub last-view : (l : List (Element K V)) → last (view l) ≡ pair_of (back l)
  unfolding last back
  last-view [] = refl
  last-view (e ∷ []) = refl
  last-view (e ∷ f ∷ l) = last-view (f ∷ l)

  pub init-view :
      (n : ℕ) (l : List (Element K V)) → length l ≡ suc n → init (view l) ≡ view (take n l)
  unfolding init
  init-view n [] h = absurd (omega arith)
  init-view zero (e ∷ []) h = refl
  init-view (suc n) (e ∷ []) h = absurd (omega arith)
  init-view zero (e ∷ f ∷ l) h = absurd (omega arith)
  init-view (suc n) (e ∷ f ∷ l) h = ap (◌∷◌ (e.key, e.value)) (init-view n (f ∷ l) (omega arith))

pub length-view : {K V : Type 0} (l : List (Element K V)) → length (view l) ≡ length l
length-view [] = refl
length-view (e ∷ l) = ap suc (length-view l)

pub take-view : {K V : Type 0} (n : ℕ) (l : List (Element K V)) → take n (view l) ≡ view (take n l)
take-view zero l = refl
take-view (suc n) [] = refl
take-view (suc n) (e ∷ l) = ap (◌∷◌ (e.key, e.value)) (take-view n l)

pub take_short : {A : Type 0} (l : List A) (size : ℕ) → length l ≤ size → take size l ≡ l
take_short [] zero h = refl
take_short [] (suc size) h = refl
take_short (p ∷ l) zero h = absurd (omega arith)
take_short (p ∷ l) (suc size) h = ground (arith, take_short l size)
