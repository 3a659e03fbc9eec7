-- ===== src/Addresses.antt =====
-- codebase/llmhub/app/utils/utils.py: image URLs with their data in base64, and the address of a
-- server with a path.
pub mod Images
pub mod Joining
mod Tests
use Prim.Native.String as Text
use rtxag.Prelude.{
  ℕ, zero, suc, String, Char, code, Bool, true, false, ◌&&◌, ◌||◌, Option, none, some, List, [],
  ◌∷◌, append, leb, eqb, if◌then◌else◌, concat, ◌==◌,
}
use rtxag.Prelude.Text.{drop_prefix, extend}
use rtxag.Error.{ErrorCode, Kind, raised, Result, ok, err, raise_http_error}
use rtxag.Message.{Part, text_part, image_url, letter}

-- [A-Za-z0-9+/]
abbrev pub base64_char : Char → Bool
base64_char c =
    let k = code c in
    (leb 65 k && leb k 90)
    || (leb 97 k && leb k 122)
    || (leb 48 k && leb k 57)
    || eqb k 43
    || eqb k 47

abbrev is_equals : Char → Bool
is_equals c = eqb (code c) 61

-- `$` matches at the end, and before a newline that is the last character.
abbrev at_end : String → Bool
at_end Text.[] = true
at_end (Text.◌∷◌ c Text.[]) = eqb (code c) 10
at_end (Text.◌∷◌ c (Text.◌∷◌ d s)) = false

-- ([A-Za-z0-9+/]{2}==|[A-Za-z0-9+/]{3}=)
abbrev last_group : Char → Char → Char → Char → Bool
last_group a b c d = base64_char a && base64_char b && is_equals d && (is_equals c || base64_char c)

abbrev full_group : Char → Char → Char → Char → Bool
full_group a b c d = base64_char a && base64_char b && base64_char c && base64_char d

-- The part of the pattern behind the comma, up to `$`.
unfoldable pub base64_body : String → Bool
base64_body (Text.◌∷◌ a (Text.◌∷◌ b (Text.◌∷◌ c (Text.◌∷◌ d s)))) =
    let rest = base64_body s in if full_group a b c d then rest else last_group a b c d && at_end s
base64_body s = at_end s

abbrev pub body_after : String → Option String → Bool
body_after url none = false
body_after url (some body) = base64_body body

abbrev pub uri_prefix : String → String
uri_prefix format = concat ("data:image/" ∷ format ∷ ";base64," ∷ [])

abbrev pub with_format : String → String → Bool
with_format format url = body_after url (drop_prefix (uri_prefix format) url)

-- `is_valid_data_uri`
unfoldable pub is_valid_data_uri : String → Bool
unfolding drop_prefix base64_body
is_valid_data_uri url = with_format "jpg" url || with_format "png" url || with_format "jpeg" url

-- `check_valid_list_content`; a letter has no attribute `type`.
unfoldable pub check_valid_list_content : List Part → Result (Unit {0})
unfolding is_valid_data_uri
check_valid_list_content [] = ok tt
check_valid_list_content (text_part s ∷ ps) = check_valid_list_content ps
check_valid_list_content (image_url u ∷ ps) =
    let rest = check_valid_list_content ps in
    if is_valid_data_uri u
    then rest
    else raise_http_error ErrorCode.request_validation_error
        "Invalid image URL. Only jpg, jpeg, and png in base64 format with proper prefix are supported."
check_valid_list_content (letter c ∷ ps) =
    err (raised Kind.attribute_error "'str' object has no attribute 'type'")

abbrev found_or : Option String → Option (String × String) → Option (String × String)
found_or none later = later
found_or (some t) later = some ("", t)

-- What stands before the first occurrence of a separator, and what stands after it.
unfoldable pub break_text : String → String → Option (String × String)
unfolding drop_prefix
break_text sep Text.[] = none
break_text sep (Text.◌∷◌ c s) =
    found_or (drop_prefix sep (Text.◌∷◌ c s)) (extend c (break_text sep s))

-- `url[n:]`
abbrev pub drop_chars : ℕ → String → String
drop_chars zero s = s
drop_chars (suc n) Text.[] = ""
drop_chars (suc n) (Text.◌∷◌ c s) = drop_chars n s

abbrev prefix_error {ℓ} : {A : Type ℓ} → Result A
prefix_error =
    raise_http_error ErrorCode.request_validation_error
      "Prefix error. The url prefix should be like: 'data:image/xxx;base64,'."

abbrev pub if_last : String → String → Option (String × String) → Result (String × String)
if_last a b none = ok (a, b)
if_last a b (some more) = prefix_error

-- Two parts, if the separator occurs once.
abbrev two_parts : String → Option (String × String) → Result (String × String)
two_parts sep none = prefix_error
two_parts sep (some (a, b)) = if_last a b (break_text sep b)

-- `split_url`
unfoldable pub split_url : String → Result (String × String)
unfolding break_text
split_url url = two_parts ";base64," (break_text ";base64," (drop_chars 11 url))

-- `base_url[:-1]` where it ends with a slash
abbrev pub drop_slash : String → String
drop_slash Text.[] = ""
drop_slash (Text.◌∷◌ c Text.[]) = if eqb (code c) 47 then "" else Text.◌∷◌ c ""
drop_slash (Text.◌∷◌ c (Text.◌∷◌ d s)) = Text.◌∷◌ c (drop_slash (Text.◌∷◌ d s))

-- `"/" + path` where it does not start with a slash
abbrev pub with_slash : String → String
with_slash Text.[] = "/"
with_slash (Text.◌∷◌ c s) = if eqb (code c) 47 then Text.◌∷◌ c s else append "/" (Text.◌∷◌ c s)

-- `build_url`, for a base that may be `None`.
unfoldable pub build_url : Option String → String → Result String
build_url none path =
    raise_http_error ErrorCode.request_validation_error
      "Failed to build url: 'NoneType' object has no attribute 'endswith'"
build_url (some base) path = ok (append (drop_slash base) (with_slash path))
