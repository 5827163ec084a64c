-- ===== src/Uchat/HeadImage/Examples.antt =====
-- Runs of the group picture, with numbers as colours.
use zhiya.Prelude.{ℕ, zero, suc, ◌+◌, ◌<◌, ◌≡◌, ◌↔◌, false, none, some, [], ◌∷◌, refl, arith}
use zhiya.Uchat.HeadImage.{
  Image, Board, HeadImage, write_images, layout, place_2, place_5, rectangle_2, rectangle_3,
  write_all, create_board,
}
use zhiya.Uchat.HeadImage.Layout.{Fits, Apart, layout-Fits, layout-Apart}
use zhiya.Uchat.HeadImage.Picture.{
  IsAvatar, AreAvatars, in_square, picture_drawn, picture_background, picture_size,
  write_images-eq-none_iff,
}
use zhiya.Uchat.HeadImage.Fetch.{
  Download, bad_status, not_jpeg, jpeg, set_images, downloads, outcome, set_images_lem,
}

abbrev avatar : ℕ → Image ℕ
avatar colour = record { min_x = 0; min_y = 0; max_x = 2; max_y = 1; at = λ x y. colour + x }

abbrev pair : HeadImage ℕ
pair = record { size = 2; padding = 1; images = avatar 100 ∷ avatar 200 ∷ [] }

abbrev picture : Board ℕ
picture =
    write_all (place_2 2 1) 0 pair.images (create_board 0 7 (rectangle_2 2 1) (rectangle_2 2 1))

avatar-IsAvatar : (colour : ℕ) → IsAvatar 2 (avatar colour)
avatar-IsAvatar colour = record {
  origin_x = refl;
  origin_y = refl;
  wide = omega arith;
  high = omega arith;
}

two_avatars : AreAvatars 2 pair.images
two_avatars = (avatar-IsAvatar 100, (avatar-IsAvatar 200, tt))

is_picture : write_images 0 7 pair ≡ some picture
unfolding write_images layout
is_picture = refl

is_layout : layout 2 1 2 ≡ some (rectangle_2 2 1, 2, place_2 2 1)
unfolding layout
is_layout = refl

picture_drawn_example : picture.at ((place_2 2 1 1).0 + 1) ((place_2 2 1 1).1 + 0) ≡ 201
picture_drawn_example =
    picture_drawn 0 7 pair picture (rectangle_2 2 1) 2 (place_2 2 1) two_avatars is_picture
      is_layout 1 (avatar 200) 1 0 (omega arith) refl (omega arith) (omega arith)

above_both : (k : ℕ) → k < 2 → in_square 2 (place_2 2 1 k) 0 0 ≡ false
unfolding place_2
above_both k h = ground arith

picture_background_example : picture.at 0 0 ≡ 7
picture_background_example =
    picture_background 0 7 pair picture (rectangle_2 2 1) 2 (place_2 2 1) two_avatars is_picture
      is_layout 0 0 (unfold rectangle_2 in omega arith) (unfold rectangle_2 in omega arith)
      above_both

picture_size_example : (picture.width ≡ rectangle_2 2 1) × (picture.height ≡ rectangle_2 2 1)
picture_size_example =
    picture_size 0 7 pair picture (rectangle_2 2 1) 2 (place_2 2 1) is_picture is_layout

no_image_example : (write_images 0 7 pair ≡ none) ↔ (pair.images ≡ [])
no_image_example = write_images-eq-none_iff 0 7 pair

five_squares : layout 100 5 5 ≡ some (rectangle_3 100 5, 5, place_5 100 5)
unfolding layout
five_squares = refl

layout-Fits_example : Fits 100 5 (rectangle_3 100 5) (place_5 100 5 4)
layout-Fits_example =
    layout-Fits 100 5 5 (rectangle_3 100 5) 5 (place_5 100 5) 4 five_squares (omega arith)

layout-Apart_example : Apart 100 5 (place_5 100 5 1) (place_5 100 5 3)
layout-Apart_example =
    layout-Apart 100 5 5 (rectangle_3 100 5) 5 (place_5 100 5) 1 3 five_squares (omega arith)
      (omega arith)

-- Four urls: a picture, a body that is none, a picture, an error.
abbrev site : ℕ → Download ℕ
site zero = jpeg (avatar 1)
site (suc zero) = not_jpeg
site (suc (suc zero)) = jpeg (avatar 2)
site (suc (suc (suc _))) = bad_status

set_images_example :
    set_images site 2 (0 ∷ 1 ∷ 2 ∷ 3 ∷ []) ≡ outcome site 2 [] (downloads site (0 ∷ 1 ∷ 2 ∷ 3 ∷ []))
set_images_example = set_images_lem site 2 (0 ∷ 1 ∷ 2 ∷ 3 ∷ [])
