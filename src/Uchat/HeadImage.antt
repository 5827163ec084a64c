-- ===== src/Uchat/HeadImage.antt =====
-- uchat/special.go: the group picture, up to nine avatars on a board.
-- A coordinate is a natural number: a decoded JPEG starts at (0, 0), and so does the board.
-- Colours are a parameter, since the code only copies them.
pub mod Layout
pub mod Draw
pub mod Picture
pub mod Fetch
mod Examples
use zhiya.Prelude.{
  ℕ, zero, suc, ◌+◌, ◌-◌, ◌*◌, ◌/◌, ◌%◌, Bool, true, false, ◌&&◌, Option, none, some, List, [], ◌∷◌,
  ltb, leb, ◌==◌, length, take, if◌then◌else◌,
}

-- image.Image, with bounds from `min` to `max`, and image.RGBA with bounds from (0, 0). `at` is the
-- colour in the form that image.RGBA stores.
pub record Image (C : Type 0) : Type 0 where
  pub min_x : ℕ
  pub min_y : ℕ
  pub max_x : ℕ
  pub max_y : ℕ
  pub at : ℕ → ℕ → C

pub record Board (C : Type 0) : Type 0 where
  pub width : ℕ
  pub height : ℕ
  pub at : ℕ → ℕ → C

-- HeadImage, without its board, which every call of `JPEG` creates anew.
pub record HeadImage (C : Type 0) : Type 0 where
  pub size : ℕ
  pub padding : ℕ
  pub images : List (Image C)

-- `for x := lo; x < hi; x++`, with hi - lo rounds.
unfoldable pub for_range : {S : Type 0} → ℕ → ℕ → (ℕ → S → S) → S → S
for_range zero x body s = s
for_range (suc n) x body s = for_range n (x + 1) body (body x s)

module _ {C : Type 0} where
  -- `board.Set(x, y, c)`: image.RGBA ignores a point outside its bounds.
  unfoldable pub set : ℕ → ℕ → C → Board C → Board C
  set x y c b =
      if ltb x b.width && ltb y b.height
      then record b { at = λ p q. if p == x && q == y then c else b.at p q }
      else b

  unfoldable pub background_color : C → Board C → Board C
  background_color back b = for_range b.width 0 (λ x. for_range b.height 0 (λ y. set x y back)) b

  -- `image.NewRGBA` gives a board of the zero colour, and every point of it is set.
  unfoldable pub create_board : C → C → ℕ → ℕ → Board C
  create_board blank back width height =
      background_color back (record { width = width; height = height; at = λ _ _. blank })

  -- The two loops that copy an image with an offset.
  unfoldable pub write_at : Image C → ℕ → ℕ → Board C → Board C
  write_at img dx dy b =
      for_range (img.max_x - img.min_x) img.min_x
        (λ x. for_range (img.max_y - img.min_y) img.min_y (λ y. set (x + dx) (y + dy) (img.at x y)))
        b

-- The offsets of image `i` in `writeImage_1` to `writeImage_9`.
module _ (size padding : ℕ) where
  abbrev pub unit : ℕ
  unit = size + padding

  unfoldable pub place_1 : ℕ → ℕ × ℕ
  place_1 i = (padding + unit / 2, padding + unit / 2)

  unfoldable pub place_2 : ℕ → ℕ × ℕ
  place_2 i = (i % 2 * unit + padding, padding + unit / 2)

  unfoldable pub place_3 : ℕ → ℕ × ℕ
  place_3 i =
      if i == 0
      then (i % 2 * unit + padding + unit / 2, i / 2 * unit + padding)
      else ((i + 1) % 2 * unit + padding, (i + 1) / 2 * unit + padding)

  unfoldable pub place_4 : ℕ → ℕ × ℕ
  place_4 i = (i % 2 * unit + padding, i / 2 * unit + padding)

  unfoldable pub place_5 : ℕ → ℕ × ℕ
  place_5 i =
      if ltb i 2
      then (i % 3 * unit + padding + unit / 2, i / 3 * unit + padding + unit / 2)
      else ((i + 1) % 3 * unit + padding, (i + 1) / 3 * unit + padding + unit / 2)

  unfoldable pub place_6 : ℕ → ℕ × ℕ
  place_6 i = (i % 3 * unit + padding, i / 3 * unit + padding + unit / 2)

  unfoldable pub place_7 : ℕ → ℕ × ℕ
  place_7 i =
      if ltb i 1
      then (i % 3 * unit + padding + size + padding, i / 3 * unit + padding)
      else ((i + 2) % 3 * unit + padding, (i + 2) / 3 * unit + padding)

  unfoldable pub place_8 : ℕ → ℕ × ℕ
  place_8 i =
      if ltb i 2
      then (i % 3 * unit + padding + unit / 2, i / 3 * unit + padding)
      else ((i + 1) % 3 * unit + padding, (i + 1) / 3 * unit + padding)

  unfoldable pub place_9 : ℕ → ℕ × ℕ
  place_9 i = (i % 3 * unit + padding, i / 3 * unit + padding)

-- `rectangle_2` and `rectangle_3`: the side of the board.
unfoldable pub rectangle_2 : ℕ → ℕ → ℕ
rectangle_2 size padding = size * 2 + 3 * padding

unfoldable pub rectangle_3 : ℕ → ℕ → ℕ
rectangle_3 size padding = size * 3 + 4 * padding

-- The `switch len(c.images)` of `writeImages`: the board's side, the number of images drawn and
-- their offsets; `none` is its error.
unfoldable pub layout : ℕ → ℕ → ℕ → Option (ℕ × ℕ × (ℕ → ℕ × ℕ))
layout size padding n =
    if n == 0
    then none
    else if n == 1
    then some (rectangle_2 size padding, 1, place_1 size padding)
    else if n == 2
    then some (rectangle_2 size padding, 2, place_2 size padding)
    else if n == 3
    then some (rectangle_2 size padding, 3, place_3 size padding)
    else if n == 4
    then some (rectangle_2 size padding, 4, place_4 size padding)
    else if n == 5
    then some (rectangle_3 size padding, 5, place_5 size padding)
    else if n == 6
    then some (rectangle_3 size padding, 6, place_6 size padding)
    else if n == 7
    then some (rectangle_3 size padding, 7, place_7 size padding)
    else if n == 8
    then some (rectangle_3 size padding, 8, place_8 size padding)
    else some (rectangle_3 size padding, 9, place_9 size padding)

module _ {C : Type 0} where
  -- `for i, img := range images`.
  unfoldable pub write_all : (ℕ → ℕ × ℕ) → ℕ → List (Image C) → Board C → Board C
  write_all place i [] b = b
  write_all place i (img ∷ images) b =
      write_all place (i + 1) images (write_at img (place i).0 (place i).1 b)

  -- The picture that `generate` returns: a square board, or the error.
  unfoldable pub write_images : C → C → HeadImage C → Option (Board C)
  write_images blank back c = elim (layout c.size c.padding (length c.images)) [
    | none ↦ none
    | some (side, n, place) ↦
        some (write_all place 0 (take n c.images) (create_board blank back side side))
  ]
