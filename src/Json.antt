-- ===== src/Json.antt =====
-- JSON and YAML values as the program holds them: dictionaries in insertion order, and numbers as
-- decimals: `float n k` is n / 10 ^ k.
use rtxag.Prelude.{
  ℕ, String, Bool, true, false, Option, none, some, nonempty, ltb, ◌==◌, if◌then◌else◌,
}
pub mod Int
pub mod Access
use Int.{ℤ}

mutual
  pub data Json : Type 0 where
    null : Json
    bool : Bool → Json
    int : ℤ → Json
    float : ℤ → ℕ → Json
    str : String → Json
    arr : Items → Json
    obj : Fields → Json

  pub data Items : Type 0 where
    nil : Items
    cons : Json → Items → Items

  pub data Fields : Type 0 where
    end : Fields
    field : String → Json → Fields → Fields

-- data.get(key)
unfoldable pub lookup : String → Fields → Option Json
lookup k end = none
lookup k (field j v fs) = if j == k then some v else lookup k fs

-- data[key] = v
unfoldable pub assign : String → Json → Fields → Fields
assign k v end = field k v end
assign k v (field j w fs) = if j == k then field j v fs else field j w (assign k v fs)

-- `if v`
abbrev pub truthy : Json → Bool
truthy null = false
truthy (bool b) = b
truthy (int (ℤ.pos n)) = ltb 0 n
truthy (int (ℤ.negsuc n)) = true
truthy (float (ℤ.pos n) k) = ltb 0 n
truthy (float (ℤ.negsuc n) k) = true
truthy (str s) = nonempty s
truthy (arr nil) = false
truthy (arr (cons x xs)) = true
truthy (obj end) = false
truthy (obj (field k v fs)) = true

-- `if data.get(key)`
abbrev pub truthy? : Option Json → Bool
truthy? none = false
truthy? (some v) = truthy v
