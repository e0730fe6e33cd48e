-- ===== src/Json/Laws.antt =====
-- What a field holds after an insertion or a removal.
use obsidian_mcp.Common.{◌≡◌, refl, false, none, some, arith, if◌then◌else◌}
use obsidian_mcp.Text.{Text, text_eq}
use obsidian_mcp.Text.Compare.{text_eq_iff}
use obsidian_mcp.Json.{Json, Fields, no_fields, field, get, set, unset, is_blank}

pub get-set :
    (k j : Text) (v : Json) (m : Fields)
    → get j (set k v m) ≡ (if text_eq k j then some v else get j m)
unfolding get set
get-set k j v no_fields = refl
get-set k j v (field i w m) =
    ground (arith, text_eq_iff k j, text_eq_iff i k, text_eq_iff i j, get-set k j v m)

pub get-unset :
    (k j : Text) (m : Fields) → get j (unset k m) ≡ (if text_eq k j then none else get j m)
unfolding get unset
get-unset k j no_fields = ground arith
get-unset k j (field i w m) =
    ground (arith, text_eq_iff k j, text_eq_iff i k, text_eq_iff i j, get-unset k j m)

pub set-nonempty : (k : Text) (v : Json) (m : Fields) → is_blank (set k v m) ≡ false
unfolding set
set-nonempty k v no_fields = refl
set-nonempty k v (field j w m) = ground arith
