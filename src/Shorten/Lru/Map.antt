-- ===== src/Shorten/Lru/Map.antt =====
-- shorten/lru.go: the laws of Go's map, for distinct keys.
use mathlib.Core.Logic.{ite, if_pos, if_neg}
use zhiya.Prelude.{ℕ, ◌+◌, ◌≡◌, none, some, List, [], ◌∷◌, arith, length}
use zhiya.Shorten.Lru.{map_get, map_delete}

module _ {K : Type 0} (dec : Discrete K) where
  -- No key stands twice.
  abbrev pub IsMap : List (K × ℕ) → Type 0
  IsMap [] = Unit
  IsMap ((k, i) ∷ m) = (map_get dec k m ≡ none) × IsMap m

  pub map_get-map_delete :
      (j k : K) (m : List (K × ℕ))
      → IsMap m
      → map_get dec j (map_delete dec k m) ≡ ite (dec k j) none (map_get dec j m)
  unfolding map_get map_delete
  map_get-map_delete j k [] h = ground arith
  map_get-map_delete j k ((q, i) ∷ m) h = ground (arith, map_get-map_delete j k m h.1)

  pub IsMap-map_delete : (k : K) (m : List (K × ℕ)) → IsMap m → IsMap (map_delete dec k m)
  unfolding map_get map_delete
  IsMap-map_delete k [] h = tt
  IsMap-map_delete k ((q, i) ∷ m) h = elim (dec q k) [
    | yes p ↦ rw (if_pos _ p) h.1
    | no p ↦
        rw (if_neg _ p)
          (ground (arith, map_get-map_delete q k m h.1, h.0), IsMap-map_delete k m h.1)
  ]

  pub length-map_delete :
      (k : K) (m : List (K × ℕ)) (i : ℕ)
      → map_get dec k m ≡ some i
      → length (map_delete dec k m) + 1 ≡ length m
  unfolding map_get map_delete
  length-map_delete k [] i h = cc
  length-map_delete k ((q, j) ∷ m) i h = ground (arith, length-map_delete k m i)
