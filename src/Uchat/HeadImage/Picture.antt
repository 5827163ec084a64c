-- ===== src/Uchat/HeadImage/Picture.antt =====
-- uchat/special.go: the finished picture.
use native.Mathlib.Nat.{add-zero}
use zhiya.Prelude.{
  ◌↔◌, some-eq-some, length-take-le, get_elem?-take, ℕ, zero, suc, ◌+◌, ◌-◌, ◌≤◌, ◌<◌, ◌≡◌, Bool,
  false, ◌&&◌, refl, sym, ap, ◌∙◌, some, none, List, [], ◌∷◌, arith, ltb, leb, length, take,
  get_elem?,
}
use zhiya.Uchat.HeadImage.{
  Image, Board, HeadImage, for_range, background_color, create_board, write_at, write_all,
  write_images, layout,
}
use zhiya.Uchat.HeadImage.Draw.{SameSize, column, columns_at, column-SameSize, for_range-SameSize}
use zhiya.Uchat.HeadImage.Layout.{IsLayout, layout_unique}

-- A decoded picture that starts at (0, 0) and is not larger than the unit.
pub record IsAvatar {C : Type 0} (size : ℕ) (img : Image C) : Type 0 where
  pub origin_x : img.min_x ≡ 0
  pub origin_y : img.min_y ≡ 0
  pub wide : img.max_x ≤ size
  pub high : img.max_y ≤ size

abbrev pub AreAvatars : {C : Type 0} → ℕ → List (Image C) → Type 0
AreAvatars size [] = Unit
AreAvatars size (img ∷ l) = IsAvatar size img × AreAvatars size l

-- The point (p, q) lies in the square of the given size at `o`.
abbrev pub in_square : ℕ → ℕ × ℕ → ℕ → ℕ → Bool
in_square size o p q = (leb o.0 p && ltb p (o.0 + size)) && (leb o.1 q && ltb q (o.1 + size))

module _ {C : Type 0} where
  write_at-SameSize : (img : Image C) (dx dy : ℕ) (b : Board C) → SameSize b (write_at img dx dy b)
  unfolding write_at
  write_at-SameSize img dx dy b =
      for_range-SameSize (img.max_x - img.min_x) img.min_x _ b
        (λ x b'. column-SameSize (img.at x) (img.max_y - img.min_y) img.min_y (x + dx) dy b')

  module _ (size : ℕ) (img : Image C) (ok : IsAvatar size img) (dx dy : ℕ) (b : Board C) where
    write_at_inside :
        (x y : ℕ)
        → x < img.max_x
        → y < img.max_y
        → dx + size ≤ b.width
        → dy + size ≤ b.height
        → (write_at img dx dy b).at (dx + x) (dy + y) ≡ img.at x y
    unfolding write_at
    write_at_inside x y hx hy w h = ground (
      arith,
      columns_at img.at (img.max_x - img.min_x) img.min_x (img.max_y - img.min_y) img.min_y dx dy b
          (dx + x) (dy + y),
    )

    write_at_outside :
        (p q : ℕ) → in_square size (dx, dy) p q ≡ false → (write_at img dx dy b).at p q ≡ b.at p q
    unfolding write_at
    write_at_outside p q out = ground (
      arith,
      columns_at img.at (img.max_x - img.min_x) img.min_x (img.max_y - img.min_y) img.min_y dx dy b
          p q,
    )

  -- No avatar with a number from `i` on is drawn over the point.
  write_all_outside :
      (size : ℕ) (place : ℕ → ℕ × ℕ) (i : ℕ) (l : List (Image C)) (b : Board C) (p q : ℕ)
      → AreAvatars size l
      → ((k : ℕ) → i ≤ k → k < i + length l → in_square size (place k) p q ≡ false)
      → (write_all place i l b).at p q ≡ b.at p q
  unfolding write_all
  write_all_outside size place i [] b p q ok out = refl
  write_all_outside size place i (img ∷ l) b p q ok out =
      write_all_outside size place (i + 1) l (write_at img (place i).0 (place i).1 b) p q ok.1
        (λ k h h'. out k (omega arith) (omega arith))
      ∙ write_at_outside size img ok.0 (place i).0 (place i).1 b p q
          (out i (omega arith) (omega arith))

module _ (size padding side n : ℕ) (place : ℕ → ℕ × ℕ)
    (fine : IsLayout size padding side n place) where
  -- A point of one avatar's square is in no later square.
  later_square :
      (i k x y : ℕ)
      → i < k
      → k < n
      → x < size
      → y < size
      → in_square size (place k) ((place i).0 + x) ((place i).1 + y) ≡ false
  later_square i k x y h h' hx hy = ground (arith, fine.apart i k h h')

module _ {C : Type 0} (size padding side n : ℕ) (place : ℕ → ℕ × ℕ)
    (fine : IsLayout size padding side n place) where
  write_first_inside :
      (i : ℕ) (img : Image C) (l : List (Image C)) (b : Board C) (x y : ℕ)
      → AreAvatars size (img ∷ l)
      → i + suc (length l) ≤ n
      → b.width ≡ side
      → b.height ≡ side
      → x < img.max_x
      → y < img.max_y
      → (write_all place i (img ∷ l) b).at ((place i).0 + x) ((place i).1 + y) ≡ img.at x y
  unfolding write_all
  write_first_inside i img l b x y ok room w h hx hy =
      let f = fine.fits i (omega arith) in
      write_all_outside size place (i + 1) l (write_at img (place i).0 (place i).1 b) _ _ ok.1
        (λ k from to.
          later_square size padding side n place fine i k x y (omega arith) (omega arith)
            (omega (arith, ok.0.wide)) (omega (arith, ok.0.high)))
      ∙ write_at_inside size img ok.0 (place i).0 (place i).1 b x y hx hy (omega (arith, f))
          (omega (arith, f))

  write_all_inside :
      (i : ℕ) (l : List (Image C)) (b : Board C) (j : ℕ) (img : Image C) (x y : ℕ)
      → AreAvatars size l
      → i + length l ≤ n
      → b.width ≡ side
      → b.height ≡ side
      → get_elem? l j ≡ some img
      → x < img.max_x
      → y < img.max_y
      → (write_all place i l b).at ((place (i + j)).0 + x) ((place (i + j)).1 + y) ≡ img.at x y
  unfolding write_all
  write_all_inside i [] b j img x y ok room w h e hx hy = cc
  write_all_inside i (img' ∷ l) b zero img x y ok room w h e hx hy =
      let same : img' ≡ img = cc in
      rw (add-zero i) (
        write_first_inside i img' l b x y ok room w h (rw same hx) (rw same hy)
        ∙ ap (λ (m : Image C). m.at x y) same)
  write_all_inside i (img' ∷ l) b (suc j) img x y ok room w h e hx hy =
      let kept = write_at-SameSize img' (place i).0 (place i).1 b in
      let shift : i + 1 + j ≡ i + suc j = omega arith in
      rw (← shift) (
        write_all_inside (i + 1) l (write_at img' (place i).0 (place i).1 b) j img x y ok.1
          (omega arith) (kept.width ∙ w) (kept.height ∙ h) e hx hy)

background_color-column :
    {C : Type 0} (back : C) (b : Board C)
    → background_color back b ≡ for_range b.width 0 (λ x. column (λ _. back) b.height 0 (x + 0) 0) b
unfolding background_color
background_color-column back b = simp add-zero

create_board_at :
    {C : Type 0} (blank back : C) (w h p q : ℕ)
    → p < w
    → q < h
    → (create_board blank back w h).at p q ≡ back
unfolding create_board
create_board_at blank back w h p q hp hq = rw (background_color-column) (
    ground (
      arith,
      columns_at (λ _ _. back) w 0 h 0 0 0 (record { width = w; height = h; at = λ _ _. blank }) p
          q,
    ))

module _ {C : Type 0} where
  AreAvatars-take :
      (size n : ℕ) (l : List (Image C)) → AreAvatars size l → AreAvatars size (take n l)
  AreAvatars-take size zero l ok = tt
  AreAvatars-take size (suc n) [] ok = tt
  AreAvatars-take size (suc n) (img ∷ l) ok = (ok.0, AreAvatars-take size n l ok.1)

  write_images_lem :
      (blank back : C) (c : HeadImage C) {board : Board C} {side n : ℕ} {place : ℕ → ℕ × ℕ}
      → write_images blank back c ≡ some board
      → layout c.size c.padding (length c.images) ≡ some (side, n, place)
      → board ≡ write_all place 0 (take n c.images) (create_board blank back side side)
  unfolding write_images
  write_images_lem blank back c {board} {side} {n} {place} h e =
      some-eq-some (sym (rw (e, write_images) at h))

  create_board-SameSize :
      (blank back : C) (w h : ℕ)
      → SameSize (record { width = w; height = h; at = λ _ _. blank }) (create_board blank back w h)
  unfolding create_board
  create_board-SameSize blank back w h =
      rw (background_color-column)
        (for_range-SameSize w 0 _ _ (λ x b'. column-SameSize (λ _. back) h 0 (x + 0) 0 b'))

  -- For avatars that start at (0, 0) and are not larger than the unit: image `j` of those that are
  -- drawn stands unchanged in its square: every pixel of it is at the
  -- same place from the square's corner, whatever is drawn before or after.
  pub picture_drawn :
      (blank back : C) (c : HeadImage C) (board : Board C) (side n : ℕ) (place : ℕ → ℕ × ℕ)
      → AreAvatars c.size c.images
      → write_images blank back c ≡ some board
      → layout c.size c.padding (length c.images) ≡ some (side, n, place)
      → (j : ℕ) (img : Image C) (x y : ℕ) → j < n
      → get_elem? c.images j ≡ some img
      → x < img.max_x
      → y < img.max_y
      → board.at ((place j).0 + x) ((place j).1 + y) ≡ img.at x y
  picture_drawn blank back c board side n place ok h e j img x y hj found hx hy =
      let fresh = create_board-SameSize blank back side side in
      let start : 0 + j ≡ j = omega arith in
      ap (λ (b : Board C). b.at ((place j).0 + x) ((place j).1 + y))
        (write_images_lem blank back c h e)
      ∙ (rw start at (
          write_all_inside c.size c.padding side n place
            (layout_unique c.size c.padding (length c.images) e).0 0 (take n c.images)
            (create_board blank back side side) j img x y (AreAvatars-take c.size n c.images ok)
            (omega (arith, length-take-le n c.images)) fresh.width fresh.height
            (get_elem?-take n j c.images hj ∙ found) hx hy))

  -- For such avatars: every point of the board in no square of an avatar has the background colour.
  pub picture_background :
      (blank back : C) (c : HeadImage C) (board : Board C) (side n : ℕ) (place : ℕ → ℕ × ℕ)
      → AreAvatars c.size c.images
      → write_images blank back c ≡ some board
      → layout c.size c.padding (length c.images) ≡ some (side, n, place)
      → (p q : ℕ) → p < side
      → q < side
      → ((k : ℕ) → k < n → in_square c.size (place k) p q ≡ false)
      → board.at p q ≡ back
  picture_background blank back c board side n place ok h e p q hp hq out =
      ap (λ (b : Board C). b.at p q) (write_images_lem blank back c h e)
      ∙ write_all_outside c.size place 0 (take n c.images) (create_board blank back side side) p q
          (AreAvatars-take c.size n c.images ok)
          (λ k _ below. out k (omega (arith, length-take-le n c.images)))
      ∙ create_board_at blank back side side p q hp hq

  write_all-SameSize :
      (place : ℕ → ℕ × ℕ) (i : ℕ) (l : List (Image C)) (b : Board C)
      → SameSize b (write_all place i l b)
  unfolding write_all
  write_all-SameSize place i [] b = record { width = refl; height = refl }
  write_all-SameSize place i (img ∷ l) b =
      let one = write_at-SameSize img (place i).0 (place i).1 b in
      let rest = write_all-SameSize place (i + 1) l (write_at img (place i).0 (place i).1 b) in
      record { width = rest.width ∙ one.width; height = rest.height ∙ one.height }

  -- The board is a square whose side the number of images decides.
  pub picture_size :
      (blank back : C) (c : HeadImage C) (board : Board C) (side n : ℕ) (place : ℕ → ℕ × ℕ)
      → write_images blank back c ≡ some board
      → layout c.size c.padding (length c.images) ≡ some (side, n, place)
      → (board.width ≡ side) × (board.height ≡ side)
  picture_size blank back c board side n place h e =
      let drawn = write_images_lem blank back c h e in
      let fresh = create_board-SameSize blank back side side in
      let kept = write_all-SameSize place 0 (take n c.images) (create_board blank back side side) in
      (
        ap (λ (b : Board C). b.width) drawn ∙ kept.width ∙ fresh.width,
        ap (λ (b : Board C). b.height) drawn ∙ kept.height ∙ fresh.height,
      )

  -- The error is for no image alone.
  pub write_images-eq-none_iff :
      (blank back : C) (c : HeadImage C) → (write_images blank back c ≡ none) ↔ (c.images ≡ [])
  unfolding write_images layout
  write_images-eq-none_iff blank back c = ground arith
