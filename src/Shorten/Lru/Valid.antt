-- ===== src/Shorten/Lru/Valid.antt =====
-- shorten/lru.go: the invariant that ties the map to the list.
use mathlib.Core.Logic.{if_pos, if_neg}
use zhiya.Prelude.{ℕ, ◌+◌, ◌≤◌, ◌<◌, ◌≡◌, refl, Option, none, some, List, [], ◌∷◌, arith, length}
use zhiya.Shorten.Lru.{Element, Lru, find_element, map_get}
use zhiya.Shorten.Lru.Elements.{find_key, AreDistinct, drop_key}
use zhiya.Shorten.Lru.Map.{IsMap}

-- Every pointer of the list was given out before `n`.
abbrev pub AreBelow : {K V : Type 0} → ℕ → List (Element K V) → Type 0
AreBelow n [] = Unit
AreBelow n (e ∷ l) = (e.id < n) × AreBelow n l

abbrev pub id_of : {K V : Type 0} → Option (Element K V) → Option ℕ
id_of none = none
id_of (some e) = some e.id

module _ {K V : Type 0} (dec : Discrete K) where
  -- The map has exactly the keys of the list, each with its element's pointer.
  pub record IsLinked (c : Lru K V) : Type 0 where
    pub distinct : AreDistinct dec c.evict_list
    pub unique : IsMap dec c.items
    pub counted : length c.items ≡ length c.evict_list
    pub linked : (k : K) → map_get dec k c.items ≡ id_of (find_key dec k c.evict_list)
    pub fresh : AreBelow c.next c.evict_list

  pub record IsValid (c : Lru K V) : Type 0 where
    pub positive : 0 < c.size
    pub bounded : length c.evict_list ≤ c.size
    pub ties : IsLinked c

module _ {K V : Type 0} where
  pub find_element-fresh : (n : ℕ) (l : List (Element K V)) → AreBelow n l → find_element n l ≡ none
  unfolding find_element
  find_element-fresh n [] h = refl
  find_element-fresh n (e ∷ l) h = ground (arith, find_element-fresh n l h.1)

  pub AreBelow-suc : (n : ℕ) (l : List (Element K V)) → AreBelow n l → AreBelow (n + 1) l
  AreBelow-suc n [] h = tt
  AreBelow-suc n (e ∷ l) h = (omega arith, AreBelow-suc n l h.1)

  pub AreBelow-drop_key :
      (dec : Discrete K) (k : K) (n : ℕ) (l : List (Element K V))
      → AreBelow n l
      → AreBelow n (drop_key dec k l)
  unfolding drop_key
  AreBelow-drop_key dec k n [] h = tt
  AreBelow-drop_key dec k n (e ∷ l) h = elim (dec e.key k) [
    | yes p ↦ rw (if_pos _ p) h.1
    | no p ↦ rw (if_neg _ p) (h.0, AreBelow-drop_key dec k n l h.1)
  ]
