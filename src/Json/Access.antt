-- ===== src/Json/Access.antt =====
-- How Python takes a value out of a dictionary or a list that may be something else.
use Prim.Native.String as Text
use rtxag.Prelude.{String, Option, none, some, concat, [], ◌∷◌}
use rtxag.Error.{Kind, raised, Result, ok, err}
use rtxag.Json.{Json, null, bool, int, float, str, arr, obj, nil, cons, lookup}

abbrev pub type_error {ℓ} : {A : Type ℓ} → String → Result A
type_error s = err (raised Kind.type_error s)

-- `type(v).__name__`
abbrev type_name : Json → String
type_name null = "NoneType"
type_name (bool b) = "bool"
type_name (int n) = "int"
type_name (float n k) = "float"
type_name (str s) = "str"
type_name (arr vs) = "list"
type_name (obj fs) = "dict"

-- f"'{type(v).__name__}' object {s}"
abbrev about : Json → String → String
about v s = concat ("'" ∷ type_name v ∷ "' object " ∷ s ∷ [])

-- d.get(key)
unfoldable pub get_key : String → Json → Result (Option Json)
unfolding lookup
get_key key (obj fs) = ok (lookup key fs)
get_key key v = err (raised Kind.attribute_error (about v "has no attribute 'get'"))

-- The argument of a KeyError is the key.
abbrev or_key_error : String → Option Json → Result Json
or_key_error key none = err (raised Kind.key_error key)
or_key_error key (some v) = ok v

-- d[key]
unfoldable pub item : String → Json → Result Json
unfolding lookup
item key (obj fs) = or_key_error key (lookup key fs)
item key (arr vs) = type_error "list indices must be integers or slices, not str"
item key (str s) = type_error "string indices must be integers, not 'str'"
item key v = type_error (about v "is not subscriptable")

-- v[0]
unfoldable pub first : Json → Result Json
first (arr (cons v vs)) = ok v
first (arr nil) = err (raised Kind.index_error "list index out of range")
first (obj fs) = err (raised Kind.key_error "0")
first (str Text.[]) = err (raised Kind.index_error "string index out of range")
first (str (Text.◌∷◌ c s)) = ok (str (Text.◌∷◌ c ""))
first v = type_error (about v "is not subscriptable")
