-- ===== src/Uchat/HeadImage/Fetch.antt =====
-- uchat/special.go: `SetImages` and `AddImage`, which download the avatars. net/http and image/jpeg
-- are the parameter `get`.
use mathlib.Core.List.{append_assoc, append-nil}
use zhiya.Prelude.{
  leb, take-append, ℕ, ◌+◌, ◌≤◌, ◌≡◌, Bool, true, false, ◌&&◌, ◌⊎◌, inl, inr, refl, sym, ◌∙◌, List,
  [], ◌∷◌, ◌++◌, arith, ltb, ◌==◌, if◌then◌else◌, Bool-cases, length, take, length-append,
}
use zhiya.Uchat.HeadImage.{Image}

-- What a download comes to: no response, a response with another status than 200, or a body that
-- is a JPEG or is not.
pub data Download (C : Type 0) : Type 0 where
  no_response : Download C
  bad_status : Download C
  not_jpeg : Download C
  jpeg : Image C → Download C

-- The images that are there when the loop ends, without or with an error.
pub data Loaded (C : Type 0) : Type 0 where
  ok : List (Image C) → Loaded C
  failed : List (Image C) → Loaded C

module _ {Url C : Type 0} (get : Url → Download C) where
  -- `AddImage`: a body that is no JPEG is passed over, without an error.
  unfoldable pub add_image : List (Image C) → Url → Loaded C
  add_image images url = elim (get url) [
    | no_response ↦ failed images
    | bad_status ↦ failed images
    | not_jpeg ↦ ok images
    | jpeg img ↦ ok (images ++ img ∷ [])
  ]

  -- The loop of `SetImages`; a limit of 0 is none.
  unfoldable pub set_images_loop : ℕ → List (Image C) → List Url → Loaded C
  set_images_loop limit images [] = ok images
  set_images_loop limit images (url ∷ urls) =
      if ltb 0 limit && (length images == limit) then ok images else elim (add_image images url) [
        | failed images' ↦ failed images'
        | ok images' ↦ set_images_loop limit images' urls
      ]

  unfoldable pub set_images : ℕ → List Url → Loaded C
  set_images limit urls = set_images_loop limit [] urls

  -- The JPEGs among the downloads, up to the first that fails, and whether one fails.
  unfoldable pub downloads : List Url → List (Image C) × Bool
  downloads [] = ([], false)
  downloads (url ∷ urls) = elim (get url) [
    | no_response ↦ ([], true)
    | bad_status ↦ ([], true)
    | not_jpeg ↦ downloads urls
    | jpeg img ↦ let (rest, fails) = downloads urls in (img ∷ rest, fails)
  ]

  -- What `SetImages` should come to: the images so far and those that the downloads give.
  abbrev pub outcome : ℕ → List (Image C) → List (Image C) × Bool → Loaded C
  outcome limit images (found, fails) =
      if ltb 0 limit && leb limit (length images + length found)
      then ok (take limit (images ++ found))
      else if fails
      then failed (images ++ found)
      else ok (images ++ found)

  abbrev HasRoom : ℕ → List (Image C) → Type 0
  HasRoom limit images = (limit ≡ 0) ⊎ (length images ≤ limit)

  reached :
      (limit : ℕ) (images found : List (Image C)) (fails : Bool)
      → (ltb 0 limit && (length images == limit)) ≡ true
      → ok images ≡ outcome limit images (found, fails)
  reached limit images found fails h =
      let full : length images ≡ limit = ground arith in
      ground (arith, take-append limit images found full)

  -- One more image, when the limit is not reached.
  one_more :
      (limit : ℕ) (images : List (Image C)) (img : Image C) (found : List (Image C)) (fails : Bool)
      → outcome limit (images ++ img ∷ []) (found, fails)
        ≡ outcome limit images (img ∷ found, fails)
  one_more limit images img found fails =
      let count : length (images ++ img ∷ []) ≡ length images + 1 =
        length-append images (img ∷ []) in
      let assoc : (images ++ img ∷ []) ++ found ≡ images ++ img ∷ found =
        append_assoc images (img ∷ []) found in
      ground arith

  nothing_left :
      (limit : ℕ) (images : List (Image C)) (fails : Bool)
      → HasRoom limit images
      → (ltb 0 limit && (length images == limit)) ≡ false
      → outcome limit images ([], fails) ≡ (if fails then failed images else ok images)
  nothing_left limit images fails room free =
      let joined : images ++ [] ≡ images = append-nil images in ground arith

  still_room :
      (limit : ℕ) (images : List (Image C)) (img : Image C)
      → HasRoom limit images
      → (ltb 0 limit && (length images == limit)) ≡ false
      → HasRoom limit (images ++ img ∷ [])
  still_room limit images img room free =
      let count : length (images ++ img ∷ []) ≡ length images + 1 =
        length-append images (img ∷ []) in
      ground arith

  set_images_loop_lem :
      (limit : ℕ) (images : List (Image C)) (urls : List Url)
      → HasRoom limit images
      → set_images_loop limit images urls ≡ outcome limit images (downloads urls)
  unfolding set_images_loop add_image downloads
  set_images_loop_lem limit images [] room =
      elim (Bool-cases (ltb 0 limit && (length images == limit))) [
        | inl full ↦ reached limit images [] false full
        | inr free ↦ ground (arith, nothing_left limit images false room free)
      ]
  set_images_loop_lem limit images (url ∷ urls) room =
      elim (Bool-cases (ltb 0 limit && (length images == limit))) [
        | inl full ↦
            ground (
              arith,
              reached limit images (downloads (url ∷ urls)).0 (downloads (url ∷ urls)).1 full,
            )
        | inr free ↦
            step (get url) refl free (set_images_loop_lem limit images urls room)
              (λ img. set_images_loop_lem limit (images ++ img ∷ []) urls)
      ]
    where
      step :
          (d : Download C)
          → get url ≡ d
          → (ltb 0 limit && (length images == limit)) ≡ false
          → set_images_loop limit images urls ≡ outcome limit images (downloads urls)
          → ((img : Image C)
              → HasRoom limit (images ++ img ∷ [])
              → set_images_loop limit (images ++ img ∷ []) urls
                ≡ outcome limit (images ++ img ∷ []) (downloads urls))
          → set_images_loop limit images (url ∷ urls)
            ≡ outcome limit images (downloads (url ∷ urls))
      step no_response e free same more =
          rw (free, downloads, e) (sym (nothing_left limit images true room free))
      step bad_status e free same more =
          rw (free, downloads, e) (sym (nothing_left limit images true room free))
      step not_jpeg e free same more = rw (free, downloads, e) same
      step (jpeg img) e free same more =
          rw (free, downloads, e)
            (more img (still_room limit images img room free)
              ∙ one_more limit images img (downloads urls).0 (downloads urls).1)

  -- For every limit and every list of urls: the images are the JPEGs in the order of their urls,
  -- without the bodies that are none, and at most `limit` of them where a limit is set; the loop
  -- has an error exactly when a download fails before that many JPEGs are there.
  pub set_images_lem :
      (limit : ℕ) (urls : List Url) → set_images limit urls ≡ outcome limit [] (downloads urls)
  unfolding set_images
  set_images_lem limit urls = set_images_loop_lem limit [] urls (inr (ground arith))
