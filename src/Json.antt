-- ===== src/Json.antt =====
-- JSON values (`serde_json::Value`) and what the program does with the fields of an object. A number is
-- kept as its printed text. `serde_json` keeps the fields sorted by their keys.
pub mod Laws
use obsidian_mcp.Common.{
  Bool, true, false, ◌&&◌, ◌||◌, Option, none, some, List, [], ◌∷◌, ltb, ◌==◌, is_some,
  if◌then◌else◌,
}
use obsidian_mcp.Text.{Text, text_eq}

mutual
  pub data Json : Type 0 where
    null : Json
    boolean : Bool → Json
    number : Text → Json
    string : Text → Json
    array : Items → Json
    object : Fields → Json

  pub data Items : Type 0 where
    no_items : Items
    item : Json → Items → Items

  pub data Fields : Type 0 where
    no_fields : Fields
    field : Text → Json → Fields → Fields

-- The order of texts.
abbrev pub text_lt : Text → Text → Bool
text_lt s [] = false
text_lt [] (d ∷ t) = true
text_lt (c ∷ s) (d ∷ t) = ltb c d || (c == d && text_lt s t)

-- `map.get(key)`
unfoldable pub get : Text → Fields → Option Json
get k no_fields = none
get k (field j v m) = if text_eq j k then some v else get k m

-- `map.insert(key, value)`
unfoldable pub set : Text → Json → Fields → Fields
set k v no_fields = field k v no_fields
set k v (field j w m) =
    let rest = set k v m in
    if text_eq j k
    then field k v m
    else if text_lt k j
    then field k v (field j w m)
    else field j w rest

-- `map.remove(key)`
unfoldable pub unset : Text → Fields → Fields
unset k no_fields = no_fields
unset k (field j w m) = let rest = unset k m in if text_eq j k then rest else field j w rest

-- `map.contains_key(key)`
abbrev pub has : Text → Fields → Bool
has k m = is_some (get k m)

-- `map.is_empty()`
abbrev pub is_blank : Fields → Bool
is_blank no_fields = true
is_blank (field k v m) = false

-- the entries of an object
abbrev pub entries : Fields → List (Text × Json)
entries no_fields = []
entries (field k v m) = (k, v) ∷ entries m
