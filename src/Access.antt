-- ===== src/Access.antt =====
-- The audience policy of private memory readers (src/access.rs).
pub mod Pieces
pub mod Confined
pub mod Eligible
use obsidian_mcp.Common.{
  ℕ, ◌≤◌, ◌<◌, Bool, true, false, not, ◌&&◌, ◌||◌, Option, none, some, List, [], ◌∷◌, ◌++◌, map,
  any, all, leb, ltb, ◌==◌, length, is_some, and_then, if◌then◌else◌,
}
use obsidian_mcp.Text.{
  Text, codes, text_eq, is_empty, len, starts_with, ends_with, contains, split, trim_end_matches,
  is_ascii_alphanumeric, trim_start, strip_prefix, is_whitespace, lines, to_ascii_lowercase,
}
use obsidian_mcp.Errors.{Result, ok, err, other, ◌>>=◌, ◌>>◌, refuse_if}
use obsidian_mcp.Map.{Map, lookup}
use obsidian_mcp.Path.{
  backslash, slash, is_slash, Component, root_dir, cur_dir, parent_dir, normal, components,
  logical_extension,
}

-- A JSON value, as far as a policy reads it: the text of a string, or another value.
pub data Value : Type 0 where
  string : Text → Value
  not_string : Value

abbrev pub Frontmatter : Type 0
Frontmatter = Map Value

-- A time in seconds: a 64-bit float, which is finite or not. Finite times are compared by a rank
-- that keeps their order.
pub data Time : Type 0 where
  finite : ℕ → Time
  infinite : Time

pub record ReadScope : Type 0 where
  pub version : ℕ
  pub tenant_id : Text
  pub star_label : Text
  pub workspace_id : Text
  pub audience_kind : Text
  pub audience_id : Text
  pub purpose : Text
  pub scope_id : Text
  pub allowed_prefixes : List Text
  pub expires_at : Time

abbrev is_id_byte : ℕ → Bool
is_id_byte c = is_ascii_alphanumeric c || (c == b'-' || c == b'_')

-- `valid_id`; a character outside ASCII has bytes that are not accepted
unfoldable pub valid_id : Text → Bool
valid_id value = not (is_empty value) && (leb (len value) 256 && all is_id_byte value)

abbrev is_normal : Component → Bool
is_normal (normal name) = true
is_normal _ = false

abbrev hidden_or_empty : Text → Bool
hidden_or_empty p = is_empty p || starts_with (codes ".") p

-- `normalized`
unfoldable pub normalized : Text → Bool
normalized raw =
    not (is_empty raw)
    && (not (any (λ c. c == backslash) raw)
        && (not (any (λ c. c == 0) raw)
            && (not (contains (codes "//") raw)
                && (not (any hidden_or_empty (split is_slash raw))
                    && all is_normal (components raw)))))

abbrev pub one_of : List Text → Text → Bool
one_of texts t = any (λ u. text_eq u t) texts

abbrev is_scope : Text → Component → Bool
is_scope scope_id (normal name) = text_eq name scope_id
is_scope scope_id _ = false

abbrev roots : List Text
roots = codes "Capture" ∷ codes "Organize" ∷ codes "Distill" ∷ codes "Express" ∷ []

abbrev first_is_root : List Component → Bool
first_is_root (normal name ∷ rest) = one_of roots name
first_is_root _ = false

-- the test of one prefix in `ReadScope::validate`
unfoldable pub prefix_accepted : ReadScope → Text → Bool
unfolding normalized
prefix_accepted s prefix =
    let path = trim_end_matches is_slash prefix in
    not (
      not (normalized path)
      || ((not (ends_with (codes "/") prefix) && not (ends_with (codes ".md") prefix))
          || (not (any (is_scope s.scope_id) (components path))
              || (not (first_is_root (components path))
                  || (starts_with (codes "Capture/") prefix
                      && text_eq s.purpose (codes "conversation"))))))

abbrev expired : Time → ℕ → Bool
expired (finite t) now = leb t now
expired infinite now = true

-- the tests of the fields in `ReadScope::validate`
unfoldable pub fields_accepted : ReadScope → ℕ → Bool
unfolding valid_id
fields_accepted s now = not (
    not (s.version == 1)
    || (not (one_of (codes "channel" ∷ codes "dm" ∷ []) s.audience_kind)
        || (not
              (one_of (codes "conversation" ∷ codes "reflection" ∷ codes "operator" ∷ []) s.purpose)
            || (any (λ i. not (valid_id i))
                  (s.tenant_id ∷ s.star_label ∷ s.workspace_id ∷ s.audience_id ∷ s.scope_id ∷ [])
                || (expired s.expires_at now
                    || (is_empty s.allowed_prefixes || ltb 64 (length s.allowed_prefixes)))))))

-- `ReadScope::validate`, at the current time
unfoldable pub validate : ReadScope → ℕ → Result (Unit {0})
unfolding fields_accepted prefix_accepted
validate s now =
    refuse_if (not (fields_accepted s now)) other
    >> refuse_if (not (all (prefix_accepted s) s.allowed_prefixes)) other

-- `ReadScope::allows_path`
unfoldable pub allows_path : ReadScope → Text → Bool
unfolding normalized
allows_path s path =
    normalized path
    && any
        (λ prefix.
          if ends_with (codes "/") prefix then starts_with prefix path else text_eq path prefix)
        s.allowed_prefixes

abbrev as_str : Value → Option Text
as_str (string t) = some t
as_str not_string = none

-- `fm.get(key).and_then(|v| v.as_str())`
abbrev pub field : Text → Frontmatter → Option Text
field key fm = and_then (lookup key fm) as_str

abbrev pub is_text : Text → Option Text → Bool
is_text t none = false
is_text t (some u) = text_eq u t

-- `ReadScope::allows_frontmatter`
unfoldable pub allows_frontmatter : ReadScope → Option Frontmatter → Bool
allows_frontmatter s none = false
allows_frontmatter s (some fm) =
    is_text (codes "slack-code/1") (field (codes "memory_schema") fm)
    && (is_text (codes "normal") (field (codes "sensitivity") fm)
        && all (λ (key, value). is_text value (field key fm))
            ((codes "tenant_id", s.tenant_id)
              ∷ (codes "star_label", s.star_label)
              ∷ (codes "workspace_id", s.workspace_id)
              ∷ (codes "audience_kind", s.audience_kind)
              ∷ (codes "audience_id", s.audience_id)
              ∷ []))
