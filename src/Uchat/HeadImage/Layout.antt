-- ===== src/Uchat/HeadImage/Layout.antt =====
-- uchat/special.go: the avatars lie on the board, apart from one another.
use mathlib.Core.Path.{subst}
use zhiya.Prelude.{
  some-eq-some, sym, ◌∙◌, min, zero, suc, ℕ, ◌+◌, ◌*◌, ◌/◌, ◌%◌, ◌≤◌, ◌<◌, ◌≡◌, ◌⊎◌, inl, inr, refl,
  some, arith, dec_lt,
}
use zhiya.Uchat.HeadImage.{
  unit, place_1, place_2, place_3, place_4, place_5, place_6, place_7, place_8, place_9,
  rectangle_2, rectangle_3, layout,
}

-- A square of the given size at `p` lies within the margins of a board.
pub record Fits (size padding side : ℕ) (p : ℕ × ℕ) : Type 0 where
  pub left : padding ≤ p.0
  pub right : p.0 + size + padding ≤ side
  pub upper : padding ≤ p.1
  pub lower : p.1 + size + padding ≤ side

-- Two such squares have `padding` between them, in one direction at least.
abbrev pub Apart : ℕ → ℕ → ℕ × ℕ → ℕ × ℕ → Type 0
Apart size padding p q =
    (p.0 + size + padding ≤ q.0)
    ⊎ (q.0 + size + padding ≤ p.0)
    ⊎ (p.1 + size + padding ≤ q.1)
    ⊎ (q.1 + size + padding ≤ p.1)

-- What the offsets for `n` images must satisfy.
pub record IsLayout (size padding side n : ℕ) (place : ℕ → ℕ × ℕ) : Type 0 where
  pub fits : (i : ℕ) → i < n → Fits size padding side (place i)
  pub apart : (i j : ℕ) → i < j → j < n → Apart size padding (place i) (place j)

step_le : (a b u : ℕ) → a < b → a * u + u ≤ b * u
step_le a b u h = grind arith

mul_le : (a b u : ℕ) → a ≤ b → a * u ≤ b * u
mul_le a b u h = grind arith

-- Two cells of a grid with three columns, in their order.
next_cell :
    (a b u : ℕ)
    → a < b
    → (a / 3 * u + u ≤ b / 3 * u) ⊎ ((a / 3 ≡ b / 3) × (a % 3 * u + u ≤ b % 3 * u))
next_cell a b u h = elim (dec_lt (a / 3) (b / 3)) [
  | yes r ↦ inl (step_le (a / 3) (b / 3) u r)
  | no r ↦ inr (omega arith, step_le (a % 3) (b % 3) u (omega arith))
]

-- The same with two columns.
next_cell_2 :
    (a b u : ℕ)
    → a < b
    → (a / 2 * u + u ≤ b / 2 * u) ⊎ ((a / 2 ≡ b / 2) × (a % 2 * u + u ≤ b % 2 * u))
next_cell_2 a b u h = elim (dec_lt (a / 2) (b / 2)) [
  | yes r ↦ inl (step_le (a / 2) (b / 2) u r)
  | no r ↦ inr (omega arith, step_le (a % 2) (b % 2) u (omega arith))
]

module _ (s p : ℕ) where
  place_1-IsLayout : IsLayout s p (rectangle_2 s p) 1 (place_1 s p)
  unfolding rectangle_2 place_1
  place_1-IsLayout = record { fits = λ i h. grind arith; apart = λ i j h k. ground (arith) }

  place_2-IsLayout : IsLayout s p (rectangle_2 s p) 2 (place_2 s p)
  unfolding rectangle_2 place_2
  place_2-IsLayout = record {
    fits = λ i h. grind arith;
    apart = λ i j h k. ground (arith, next_cell_2 i j (unit s p));
  }

  place_3-IsLayout : IsLayout s p (rectangle_2 s p) 3 (place_3 s p)
  unfolding rectangle_2 place_3
  place_3-IsLayout = record {
    fits = λ i h. grind arith;
    apart = λ i j h k.
        ground (arith, next_cell_2 i (j + 1) (unit s p), next_cell_2 (i + 1) (j + 1) (unit s p));
  }

  place_4-IsLayout : IsLayout s p (rectangle_2 s p) 4 (place_4 s p)
  unfolding rectangle_2 place_4
  place_4-IsLayout = record {
    fits = λ i h. grind arith;
    apart = λ i j h k. ground (arith, next_cell_2 i j (unit s p));
  }

  place_5-IsLayout : IsLayout s p (rectangle_3 s p) 5 (place_5 s p)
  unfolding rectangle_3 place_5
  place_5-IsLayout = record {
    fits = λ i h. grind arith;
    apart = λ i j h k. ground (
      arith,
      next_cell i j (unit s p),
      next_cell i (j + 1) (unit s p),
      next_cell (i + 1) (j + 1) (unit s p),
    );
  }

  place_8-IsLayout : IsLayout s p (rectangle_3 s p) 8 (place_8 s p)
  unfolding rectangle_3 place_8
  place_8-IsLayout = record {
    fits = λ i h. ground (
      arith,
      mul_le (i % 3) 1 (unit s p),
      mul_le (i / 3) 0 (unit s p),
      mul_le ((i + 1) % 3) 2 (unit s p),
      mul_le ((i + 1) / 3) 2 (unit s p),
    );
    apart = λ i j h k. ground (
      arith,
      next_cell i j (unit s p),
      next_cell i (j + 1) (unit s p),
      next_cell (i + 1) (j + 1) (unit s p),
    );
  }

  place_6-IsLayout : IsLayout s p (rectangle_3 s p) 6 (place_6 s p)
  unfolding rectangle_3 place_6
  place_6-IsLayout = record {
    fits = λ i h. grind arith;
    apart = λ i j h k. ground (arith, next_cell i j (unit s p));
  }

  place_7-IsLayout : IsLayout s p (rectangle_3 s p) 7 (place_7 s p)
  unfolding rectangle_3 place_7
  place_7-IsLayout = record {
    fits = λ i h. ground (
      arith,
      mul_le (i % 3) 0 (unit s p),
      mul_le (i / 3) 0 (unit s p),
      mul_le ((i + 2) % 3) 2 (unit s p),
      mul_le ((i + 2) / 3) 2 (unit s p),
    );
    apart = λ i j h k.
        ground (arith, next_cell i (j + 2) (unit s p), next_cell (i + 2) (j + 2) (unit s p));
  }

  place_9-IsLayout : IsLayout s p (rectangle_3 s p) 9 (place_9 s p)
  unfolding rectangle_3 place_9
  place_9-IsLayout = record {
    fits = λ i h. grind arith;
    apart = λ i j h k. ground (arith, next_cell i j (unit s p));
  }

-- Whatever the number of avatars, if there is one: their squares lie within the margins of the
-- board, and apart from one another; nine of them are drawn at most, and never more than there are.
pub layout-IsLayout :
    (size padding n : ℕ)
    → 0 < n
    → (side k : ℕ) × (place : ℕ → ℕ × ℕ) × (layout size padding n ≡ some (side, k, place))
      × IsLayout size padding side k place
      × (k ≡ min n 9)
unfolding layout
layout-IsLayout s p zero h = absurd (omega arith)
layout-IsLayout s p (suc zero) h =
    (rectangle_2 s p, 1, place_1 s p, refl, place_1-IsLayout s p, refl)
layout-IsLayout s p (suc (suc zero)) h =
    (rectangle_2 s p, 2, place_2 s p, refl, place_2-IsLayout s p, refl)
layout-IsLayout s p (suc (suc (suc zero))) h =
    (rectangle_2 s p, 3, place_3 s p, refl, place_3-IsLayout s p, refl)
layout-IsLayout s p (suc (suc (suc (suc zero)))) h =
    (rectangle_2 s p, 4, place_4 s p, refl, place_4-IsLayout s p, refl)
layout-IsLayout s p (suc (suc (suc (suc (suc zero))))) h =
    (rectangle_3 s p, 5, place_5 s p, refl, place_5-IsLayout s p, refl)
layout-IsLayout s p (suc (suc (suc (suc (suc (suc zero)))))) h =
    (rectangle_3 s p, 6, place_6 s p, refl, place_6-IsLayout s p, refl)
layout-IsLayout s p (suc (suc (suc (suc (suc (suc (suc zero))))))) h =
    (rectangle_3 s p, 7, place_7 s p, refl, place_7-IsLayout s p, refl)
layout-IsLayout s p (suc (suc (suc (suc (suc (suc (suc (suc zero)))))))) h =
    (rectangle_3 s p, 8, place_8 s p, refl, place_8-IsLayout s p, refl)
layout-IsLayout s p (suc (suc (suc (suc (suc (suc (suc (suc (suc m))))))))) h =
    (rectangle_3 s p, 9, place_9 s p, ground arith, place_9-IsLayout s p, omega arith)

-- What `layout` returns, whole.
pub layout_unique :
    (size padding n : ℕ) {side k : ℕ} {place : ℕ → ℕ × ℕ}
    → layout size padding n ≡ some (side, k, place)
    → IsLayout size padding side k place × (k ≤ 9)
unfolding layout
layout_unique s p zero h = cc
layout_unique s p (suc n) h =
    let (side, k, place, e, fine, count) = layout-IsLayout s p (suc n) (omega arith) in
    subst (λ (t : ℕ × ℕ × (ℕ → ℕ × ℕ)). IsLayout s p t.0 t.1 t.2 × (t.1 ≤ 9))
      (some-eq-some (sym e ∙ h)) (fine, omega arith)

-- The squares of the avatars lie within the margins of the board.
pub layout-Fits :
    (size padding n : ℕ) (side k : ℕ) (place : ℕ → ℕ × ℕ) (i : ℕ)
    → layout size padding n ≡ some (side, k, place)
    → i < k
    → Fits size padding side (place i)
layout-Fits s p n side k place i e h = (layout_unique s p n e).0.fits i h

-- Any two of them are apart.
pub layout-Apart :
    (size padding n : ℕ) (side k : ℕ) (place : ℕ → ℕ × ℕ) (i j : ℕ)
    → layout size padding n ≡ some (side, k, place)
    → i < j
    → j < k
    → Apart size padding (place i) (place j)
layout-Apart s p n side k place i j e h h' = (layout_unique s p n e).0.apart i j h h'
