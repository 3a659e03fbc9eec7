-- ===== src/Anthropic/Images.antt =====
-- Lists with images are sent as blocks that say what they say.
use rtxag.Prelude.{String, ◌≡◌, refl, inl, inr, true, Bool-cases, List, [], ◌∷◌}
use rtxag.Error.{ok}
use rtxag.Json.{Json, Items, nil, cons}
use rtxag.Message.{Part, text_part, image_url, letter}
use rtxag.Addresses.{check_valid_list_content, is_valid_data_uri, base64_body}
use rtxag.Addresses.Images.{is_valid_data_uri-IsImage, image_uri}
use rtxag.Anthropic.Prepare.{build_blocks, text_block, image_block}

-- A block for each part: a text with its text, and an image with the format and the data of which
-- its URL is made.
abbrev pub Says : Part → Json → Type 0
Says (text_part s) v = v ≡ text_block s
Says (image_url u) v =
    (format : String) × (body : String) × (v ≡ image_block format body)
    × (image_uri format body ≡ u)
    × (base64_body body ≡ true)
Says (letter c) v = ⊥

abbrev pub SayAll : List Part → Items → Type 0
SayAll [] nil = Unit
SayAll (p ∷ ps) (cons v vs) = Says p v × SayAll ps vs
SayAll _ _ = ⊥

-- A list content whose images pass the check is always turned into blocks, one for each part in
-- their order: splitting the URL of an image never fails, and the block has its format and its data.
pub build_blocks-SayAll :
    (ps : List Part)
    → check_valid_list_content ps ≡ ok tt
    → (vs : Items) × (build_blocks ps ≡ ok vs) × SayAll ps vs
unfolding check_valid_list_content build_blocks
build_blocks-SayAll [] h = (nil, refl, tt)
build_blocks-SayAll (text_part s ∷ ps) h =
    let (vs, q, a) = build_blocks-SayAll ps h in (cons (text_block s) vs, rw q refl, (refl, a))
build_blocks-SayAll (image_url u ∷ ps) h = elim (Bool-cases (is_valid_data_uri u)) [
  | inl valid ↦
      let (format, body, (c, e, b, s)) = is_valid_data_uri-IsImage u valid in
      let (vs, q, a) = build_blocks-SayAll ps (rw valid at h) in
      (cons (image_block format body) vs, rw (s, q) refl, ((format, body, refl, e, b), a))
  | inr invalid ↦ cc
]
build_blocks-SayAll (letter c ∷ ps) h = cc
