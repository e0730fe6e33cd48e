-- ===== src/Path.antt =====
-- Vault-relative paths (src/vault/path.rs). A path is its text; on Unix a `Path` and a `str` of
-- UTF-8 have the same bytes. The checks of Windows names are compiled on Windows only.
pub mod Names
pub mod Parsing
pub mod Normal
pub mod Escape
pub mod Portable
use obsidian_mcp.Common.{
  ℕ, Bool, true, false, not, ◌&&◌, ◌||◌, Option, none, some, List, [], ◌∷◌, ◌++◌, map, reverse,
  ◌==◌, if◌then◌else◌, any, filter, and_then,
}
use obsidian_mcp.Text.{
  Text, codes, text_eq, is_empty, split, join, replace_char, is_control, rsplit_once, starts_with,
}
use obsidian_mcp.Errors.{Result, ok, err, invalid_path, outside_vault, ◌>>=◌}

abbrev pub slash : ℕ
slash = b'/'

abbrev pub backslash : ℕ
backslash = b'\\'

abbrev pub is_slash : ℕ → Bool
is_slash c = c == slash

-- the pattern `['/', '\\']`
abbrev pub is_separator : ℕ → Bool
is_separator c = c == slash || c == backslash

abbrev pub dot : Text
dot = codes "."

abbrev pub dot_dot : Text
dot_dot = codes ".."

abbrev pub starts_with_separator : Text → Bool
starts_with_separator [] = false
starts_with_separator (c ∷ s) = is_separator c

-- The loop of `VaultPath::parse`. The vector of names is kept with its last element first, so that
-- `push` and `pop` act on the head.
pub fold_names : Text → List Text → List Text → Result (List Text)
fold_names value [] names = ok names
fold_names value (name ∷ rest) names =
    let skip = fold_names value rest names in
    let pop : Result (List Text) = elim names [
      | [] ↦ err (outside_vault value)
      | top ∷ below ↦ fold_names value rest below
    ] in
    let push = fold_names value rest (name ∷ names) in
    if is_empty name || text_eq name dot then skip else if text_eq name dot_dot then pop else push

abbrev pub spell : List Text → Text
spell names = join (slash ∷ []) (reverse names)

-- `VaultPath::parse`; the result is the text that `VaultPath` wraps.
unfoldable pub parse : Text → Result Text
unfolding fold_names
parse value =
    if starts_with_separator value || any is_control value
    then err invalid_path
    else (fold_names value (split is_slash (replace_char backslash slash value)) [] >>= λ names.
        ok (spell names))

-- `VaultPath::entry`
unfoldable pub entry : Text → Result Text
entry name =
    if is_empty name
      || (text_eq name dot || text_eq name dot_dot)
      || any is_separator name
      || any is_control name
    then err invalid_path
    else ok name

-- `logical_separators`
unfoldable pub logical_separators : Text → Text
logical_separators path =
    if any (λ c. c == backslash) path then replace_char backslash slash path else path

abbrev pub last_or_empty : List Text → Text
last_or_empty [] = []
last_or_empty (w ∷ []) = w
last_or_empty (w ∷ v ∷ ws) = last_or_empty (v ∷ ws)

-- `logical_file_name`
unfoldable pub logical_file_name : Text → Option Text
logical_file_name path =
    let name = last_or_empty (split is_separator path) in if is_empty name then none else some name

-- `logical_file_stem`
unfoldable pub logical_file_stem : Text → Option Text
unfolding logical_file_name
logical_file_stem path = and_then (logical_file_name path) λ name. elim (rsplit_once b'.' name) [
  | none ↦ some name
  | some (stem, extension) ↦ if not (is_empty stem) then some stem else some name
]

-- `logical_extension`
unfoldable pub logical_extension : Text → Option Text
unfolding logical_file_name
logical_extension path = and_then (logical_file_name path) λ name. elim (rsplit_once b'.' name) [
  | none ↦ none
  | some (stem, extension) ↦ if not (is_empty stem) then some extension else none
]

-- `logical_join`
unfoldable pub logical_join : Text → Text → Result Text
unfolding parse
logical_join parent child = parse parent >>= λ p.
    parse child >>= λ c. ok (if is_empty p then c else if is_empty c then p else p ++ slash ∷ c)

-- What `Path::components` yields on Unix.
pub data Component : Type 0 where
  root_dir cur_dir parent_dir : Component
  normal : Text → Component

abbrev pub to_component : Text → Component
to_component name = if text_eq name dot_dot then parent_dir else normal name

-- The root, or a `.` that begins the path, in front of the other components.
abbrev pub leading : Text → List Text → List Component → List Component
leading path [] rest = rest
leading path (first ∷ names) rest =
    if starts_with (codes "/") path
    then root_dir ∷ rest
    else if text_eq first dot
    then cur_dir ∷ rest
    else rest

-- Empty names and any other `.` are dropped.
abbrev pub components : Text → List Component
components path =
    let names = split is_slash path in
    leading path names (map to_component (filter (λ n. not (is_empty n || text_eq n dot)) names))

abbrev same_component : Component → Component → Bool
same_component root_dir root_dir = true
same_component cur_dir cur_dir = true
same_component parent_dir parent_dir = true
same_component (normal a) (normal b) = text_eq a b
same_component _ _ = false

abbrev same_components : List Component → List Component → Bool
same_components [] [] = true
same_components (c ∷ cs) (d ∷ ds) = same_component c d && same_components cs ds
same_components _ _ = false

-- `a == b` on paths: their components are the same.
abbrev pub same_path : Text → Text → Bool
same_path a b = same_components (components a) (components b)

-- The loop of `normalize_relative`, its vector again with the last element first.
pub fold_components : Text → List Component → List Text → Result (List Text)
fold_components path [] names = ok names
fold_components path (normal name ∷ rest) names = fold_components path rest (name ∷ names)
fold_components path (cur_dir ∷ rest) names = fold_components path rest names
fold_components path (parent_dir ∷ rest) [] = err (outside_vault path)
fold_components path (parent_dir ∷ rest) (top ∷ below) = fold_components path rest below
fold_components path (root_dir ∷ rest) names = err invalid_path

-- `normalize_relative`
unfoldable pub normalize_relative : Text → Result Text
unfolding fold_components
normalize_relative path =
    fold_components path (components (replace_char backslash slash path)) [] >>= λ names.
    ok (spell names)
