-- ===== src/Shorten/Lru/Elements.antt =====
-- shorten/lru.go: elements found by pointer, and by key.
use mathlib.Core.Logic.{ite, if_pos, if_neg}
use zhiya.Prelude.{
  ℕ, zero, suc, ◌+◌, ◌<◌, ◌≡◌, refl, Option, none, some, List, [], ◌∷◌, arith, length, take,
}
use zhiya.Shorten.Lru.{Element, find_element, unlink, back}

module _ {K V : Type 0} (dec : Discrete K) where
  -- The element of a key.
  unfoldable pub find_key : K → List (Element K V) → Option (Element K V)
  find_key k [] = none
  find_key k (e ∷ l) = ite (dec e.key k) (some e) (find_key k l)

  -- No key and no pointer stands twice.
  abbrev pub AreDistinct : List (Element K V) → Type 0
  AreDistinct [] = Unit
  AreDistinct (e ∷ l) = (find_key e.key l ≡ none) × (find_element e.id l ≡ none) × AreDistinct l

  pub unlink_absent : (i : ℕ) (l : List (Element K V)) → find_element i l ≡ none → unlink i l ≡ l
  unfolding find_element unlink
  unlink_absent i [] h = refl
  unlink_absent i (e ∷ l) h = ground (arith, unlink_absent i l)

  -- The list without the element of a key.
  unfoldable pub drop_key : K → List (Element K V) → List (Element K V)
  drop_key k [] = []
  drop_key k (e ∷ l) = ite (dec e.key k) l (e ∷ drop_key k l)

  pub find_key-key :
      (k : K) (l : List (Element K V)) (e : Element K V) → find_key k l ≡ some e → e.key ≡ k
  unfolding find_key
  find_key-key k [] e h = cc
  find_key-key k (f ∷ l) e h = ground (arith, find_key-key k l e)

  -- The pointer of an element that a key finds leads to it.
  pub find_element-find_key :
      (k : K) (l : List (Element K V)) (e : Element K V)
      → AreDistinct l
      → find_key k l ≡ some e
      → find_element e.id l ≡ some e
  unfolding find_key find_element
  find_element-find_key k [] e d h = cc
  find_element-find_key k (f ∷ l) e d h = ground (arith, find_element-find_key k l e d.2)

  -- To unlink it is to drop the key.
  pub unlink-drop_key :
      (k : K) (l : List (Element K V)) (e : Element K V)
      → AreDistinct l
      → find_key k l ≡ some e
      → unlink e.id l ≡ drop_key k l
  unfolding find_key find_element unlink drop_key
  unlink-drop_key k [] e d h = cc
  unlink-drop_key k (f ∷ l) e d h =
      ground (arith, unlink-drop_key k l e d.2, find_element-find_key k l e d.2)

  pub find_key-drop_key :
      (j k : K) (l : List (Element K V))
      → AreDistinct l
      → find_key j (drop_key k l) ≡ ite (dec k j) none (find_key j l)
  unfolding find_key drop_key
  find_key-drop_key j k [] d = ground arith
  find_key-drop_key j k (f ∷ l) d = ground (arith, find_key-drop_key j k l d.2)

  pub find_element-drop_key :
      (i : ℕ) (k : K) (l : List (Element K V))
      → find_element i l ≡ none
      → find_element i (drop_key k l) ≡ none
  unfolding find_element drop_key
  find_element-drop_key i k [] h = refl
  find_element-drop_key i k (f ∷ l) h = ground (arith, find_element-drop_key i k l)

  pub AreDistinct-drop_key :
      (k : K) (l : List (Element K V)) → AreDistinct l → AreDistinct (drop_key k l)
  unfolding find_key find_element drop_key
  AreDistinct-drop_key k [] d = tt
  AreDistinct-drop_key k (f ∷ l) d = elim (dec f.key k) [
    | yes p ↦ rw (if_pos _ p) d.2
    | no p ↦ rw (if_neg _ p) (
      ground (arith, find_key-drop_key f.key k l d.2, d.0),
      find_element-drop_key f.id k l d.1,
      AreDistinct-drop_key k l d.2,
    )
  ]

  pub length-drop_key :
      (k : K) (l : List (Element K V)) (e : Element K V)
      → find_key k l ≡ some e
      → length (drop_key k l) + 1 ≡ length l
  unfolding find_key drop_key
  length-drop_key k [] e h = cc
  length-drop_key k (f ∷ l) e h = ground (arith, length-drop_key k l e)

  -- The last element is found by its key, and dropping its key drops the last.
  pub find_key-back :
      (l : List (Element K V)) (e : Element K V)
      → AreDistinct l
      → back l ≡ some e
      → find_key e.key l ≡ some e
  unfolding find_key back
  find_key-back [] e d h = cc
  find_key-back (f ∷ []) e d h = ground arith
  find_key-back (f ∷ g ∷ l) e d h = ground (arith, find_key-back (g ∷ l) e d.2)

  pub drop_key-take :
      (l : List (Element K V)) (e : Element K V) (n : ℕ)
      → AreDistinct l
      → back l ≡ some e
      → length l ≡ suc n
      → drop_key e.key l ≡ take n l
  unfolding find_key drop_key back
  drop_key-take [] e n d h p = cc
  drop_key-take (f ∷ []) e zero d h p = ground arith
  drop_key-take (f ∷ []) e (suc n) d h p = absurd (omega arith)
  drop_key-take (f ∷ g ∷ l) e zero d h p = absurd (omega arith)
  drop_key-take (f ∷ g ∷ l) e (suc n) d h p =
      ground (arith, drop_key-take (g ∷ l) e n d.2 h (omega arith), find_key-back (g ∷ l) e d.2 h)

  pub back-some : (l : List (Element K V)) → 0 < length l → (e : Element K V) × (back l ≡ some e)
  unfolding back
  back-some [] h = absurd (omega arith)
  back-some (f ∷ []) h = (f, refl)
  back-some (f ∷ g ∷ l) h = back-some (g ∷ l) (omega arith)
