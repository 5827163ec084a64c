-- ===== src/Uchat/HeadImage/Draw.antt =====
-- uchat/special.go: what the nested loops over points draw.
use zhiya.Prelude.{
  ℕ, zero, suc, ◌+◌, ◌-◌, ◌≡◌, Bool, ◌&&◌, refl, ◌∙◌, arith, ltb, leb, ◌==◌, if◌then◌else◌,
}
use zhiya.Uchat.HeadImage.{Board, for_range, set}

module _ {C : Type 0} where
  -- The board `b'` has the size of `b`.
  pub record SameSize (b b' : Board C) : Type 0 where
    pub width : b'.width ≡ b.width
    pub height : b'.height ≡ b.height

  set-SameSize : (x y : ℕ) (c : C) (b : Board C) → SameSize b (set x y c b)
  unfolding set
  set-SameSize x y c b = ground arith

  pub for_range-SameSize :
      (n x : ℕ) (body : ℕ → Board C → Board C) (b : Board C)
      → ((y : ℕ) (b' : Board C) → SameSize b' (body y b'))
      → SameSize b (for_range n x body b)
  unfolding for_range
  for_range-SameSize zero x body b keeps = record { width = refl; height = refl }
  for_range-SameSize (suc n) x body b keeps =
      let one = keeps x b in
      let rest = for_range-SameSize n (x + 1) body (body x b) keeps in
      record { width = rest.width ∙ one.width; height = rest.height ∙ one.height }

  abbrev pub within : Board C → ℕ → ℕ → Bool
  within b p q = ltb p b.width && ltb q b.height

  set-at :
      (x y : ℕ) (c : C) (b : Board C) (p q : ℕ)
      → (set x y c b).at p q ≡ (if (p == x && q == y) && within b p q then c else b.at p q)
  unfolding set
  set-at x y c b p q = ground arith

  -- One column of an image.
  column_at :
      (f : ℕ → C) (n y x dy : ℕ) (b : Board C) (p q : ℕ)
      → (for_range n y (λ y. set x (y + dy) (f y)) b).at p q ≡ (
          if (p == x && (leb (y + dy) q && ltb q (y + n + dy))) && within b p q
          then f (q - dy)
          else b.at p q)
  unfolding for_range
  column_at f zero y x dy b p q = ground arith
  column_at f (suc n) y x dy b p q = ground (
    arith,
    column_at f n (y + 1) x dy (set x (y + dy) (f y) b) p q,
    set-SameSize x (y + dy) (f y) b,
    set-at x (y + dy) (f y) b p q,
  )

  abbrev pub column : (ℕ → C) → ℕ → ℕ → ℕ → ℕ → Board C → Board C
  column f n y x dy = for_range n y (λ y. set x (y + dy) (f y))

  pub column-SameSize : (f : ℕ → C) (n y x dy : ℕ) (b : Board C) → SameSize b (column f n y x dy b)
  column-SameSize f n y x dy b =
      for_range-SameSize n y (λ y. set x (y + dy) (f y)) b
        (λ y b'. set-SameSize x (y + dy) (f y) b')

  -- All columns of an image.
  pub columns_at :
      (f : ℕ → ℕ → C) (m x n y dx dy : ℕ) (b : Board C) (p q : ℕ)
      → (for_range m x (λ x. column (f x) n y (x + dx) dy) b).at p q ≡ (
          if ((leb (x + dx) p && ltb p (x + m + dx)) && (leb (y + dy) q && ltb q (y + n + dy)))
            && within b p q
          then f (p - dx) (q - dy)
          else b.at p q)
  unfolding for_range
  columns_at f zero x n y dx dy b p q = ground arith
  columns_at f (suc m) x n y dx dy b p q = ground (
    arith,
    columns_at f m (x + 1) n y dx dy (column (f x) n y (x + dx) dy b) p q,
    column-SameSize (f x) n y (x + dx) dy b,
    column_at (f x) n y (x + dx) dy b p q,
  )
