-- ===== src/Shorten/Lru/Spec.antt =====
-- shorten/lru.go as a client sees it: pairs, the most recent first, none of the pointers.
use mathlib.Core.Logic.{ite}
use zhiya.Prelude.{ℕ, Bool, true, false, Option, none, some, List, [], ◌∷◌, map, leb, length, take}
use zhiya.Shorten.Lru
use zhiya.Shorten.Lru.{Element, Lru}

abbrev pub view : {K V : Type 0} → List (Element K V) → List (K × V)
view = map (λ e. (e.key, e.value))

-- The calls that change the cache, and what they return.
pub data Call (K V : Type 0) : Type 0 where
  add : K → V → Call K V
  get : K → Call K V
  remove : K → Call K V
  remove_oldest : Call K V

pub data Reply (K V : Type 0) : Type 0 where
  flag : Bool → Reply K V
  found : Option V → Reply K V
  oldest : Option (K × V) → Reply K V

module _ {K V : Type 0} where
  -- The last pair, and the pairs before it.
  unfoldable pub last : List (K × V) → Option (K × V)
  last [] = none
  last (p ∷ []) = some p
  last (p ∷ q ∷ l) = last (q ∷ l)

  unfoldable pub init : List (K × V) → List (K × V)
  init [] = []
  init (p ∷ []) = []
  init (p ∷ q ∷ l) = p ∷ init (q ∷ l)

module _ {K V : Type 0} (dec : Discrete K) where
  unfoldable pub lookup : K → List (K × V) → Option V
  lookup k [] = none
  lookup k ((j, v) ∷ l) = ite (dec j k) (some v) (lookup k l)

  unfoldable pub without : K → List (K × V) → List (K × V)
  without k [] = []
  without k ((j, v) ∷ l) = ite (dec j k) l ((j, v) ∷ without k l)

  -- A cache of `size` pairs.
  unfoldable pub spec_step : ℕ → List (K × V) → Call K V → List (K × V) × Reply K V
  spec_step size l (add k v) = elim (lookup k l) [
    | some _ ↦ ((k, v) ∷ without k l, flag false)
    | none ↦ (take size ((k, v) ∷ l), flag (leb size (length l)))
  ]
  spec_step size l (get k) = elim (lookup k l) [
    | some v ↦ ((k, v) ∷ without k l, found (some v))
    | none ↦ (l, found none)
  ]
  spec_step size l (remove k) = elim (lookup k l) [
    | some _ ↦ (without k l, flag true)
    | none ↦ (l, flag false)
  ]
  spec_step size l remove_oldest = (init l, oldest (last l))

  unfoldable pub spec_run : ℕ → List (K × V) → List (Call K V) → List (K × V) × List (Reply K V)
  spec_run size l [] = (l, [])
  spec_run size l (x ∷ xs) =
      let (l', r) = spec_step size l x in let (l'', rs) = spec_run size l' xs in (l'', r ∷ rs)

  -- The source's method for a call.
  unfoldable pub step : Lru K V → Call K V → Lru K V × Reply K V
  step c (add k v) = let (c', b) = Lru.add dec c k v in (c', flag b)
  step c (get k) = let (c', v) = Lru.get dec c k in (c', found v)
  step c (remove k) = let (c', b) = Lru.remove dec c k in (c', flag b)
  step c remove_oldest = let (c', p) = Lru.remove_oldest dec c in (c', oldest p)

  unfoldable pub run : Lru K V → List (Call K V) → Lru K V × List (Reply K V)
  run c [] = (c, [])
  run c (x ∷ xs) = let (c', r) = step c x in let (c'', rs) = run c' xs in (c'', r ∷ rs)
