-- ===== src/Access/Confined.antt =====
-- A valid scope confines its reader to its own directories.
use obsidian_mcp.Common.{
  ℕ, ◌≡◌, refl, sym, ap, subst, Bool, true, false, not, ◌&&◌, ◌||◌, any, all, All, List, [], ◌∷◌,
  arith, ◌==◌, Any, Any-append_left, any-all, Bool-cases, &&_iff, inl, inr, if◌then◌else◌,
}
use obsidian_mcp.Text.{
  Text, codes, text_eq, is_empty, starts_with, ends_with, contains, split, trim_end_matches,
}
use obsidian_mcp.Text.Compare.{text_eq_sound, text_eq_refl}
use obsidian_mcp.Text.Split.{Lacks, split-ne-nil}
use obsidian_mcp.Errors.{ok, other, ◌>>◌, refuse_if}
use obsidian_mcp.Path.{backslash, is_slash, components}
use obsidian_mcp.Access.{
  ReadScope, normalized, is_normal, one_of, roots, is_scope, first_is_root, hidden_or_empty,
  prefix_accepted, fields_accepted, validate, allows_path,
}
use obsidian_mcp.Access.Pieces.{
  first_of, IsVisible, IsConfined, begins_within, either_begins, components_scope, first_section,
  extends, first_of-append,
}

-- What an accepted prefix has.
record Accepted (s : ReadScope) (prefix : Text) : Type 0 where
  plain : any hidden_or_empty (split is_slash (trim_end_matches is_slash prefix)) ≡ false
  scoped : any (is_scope s.scope_id) (components (trim_end_matches is_slash prefix)) ≡ true
  section : first_is_root (components (trim_end_matches is_slash prefix)) ≡ true
  guarded :
      (starts_with (codes "Capture/") prefix && text_eq s.purpose (codes "conversation")) ≡ false

prefix_tests :
    (n f g a b c d : Bool)
    → not (not n || ((f && g) || (not a || (not b || (c && d))))) ≡ true
    → (n ≡ true) × (a ≡ true) × (b ≡ true) × ((c && d) ≡ false)
prefix_tests n f g a b c d h = (ground arith, ground arith, ground arith, ground arith)

normal_tests :
    (a b c d e f : Bool)
    → (not a && (not b && (not c && (not d && (not e && f))))) ≡ true
    → (b ≡ false) × (e ≡ false)
normal_tests a b c d e f h = (ground arith, ground arith)

normalized_plain :
    (path : Text)
    → normalized path ≡ true
    → (any (λ c. c == backslash) path ≡ false) × (any hidden_or_empty (split is_slash path) ≡ false)
unfolding normalized
normalized_plain path h =
    normal_tests (is_empty path) (any (λ c. c == backslash) path) (any (λ c. c == 0) path)
      (contains (codes "//") path) (any hidden_or_empty (split is_slash path))
      (all is_normal (components path)) h

hidden_or_empty-IsVisible : (name : Text) → hidden_or_empty name ≡ false → IsVisible name
hidden_or_empty-IsVisible [] h = absurd (ground arith)
hidden_or_empty-IsVisible (c ∷ name) h = (λ e. cc e, h)

names-IsVisible : (names : List Text) → any hidden_or_empty names ≡ false → All IsVisible names
names-IsVisible [] h = tt
names-IsVisible (name ∷ names) h =
    (hidden_or_empty-IsVisible name (ground arith), names-IsVisible names (ground arith))

accepted : (s : ReadScope) (prefix : Text) → prefix_accepted s prefix ≡ true → Accepted s prefix
unfolding prefix_accepted
accepted s prefix h =
    let path = trim_end_matches is_slash prefix in
    let (n, a, b, g) =
      prefix_tests (normalized path) (not (ends_with (codes "/") prefix))
        (not (ends_with (codes ".md") prefix)) (any (is_scope s.scope_id) (components path))
        (first_is_root (components path)) (starts_with (codes "Capture/") prefix)
        (text_eq s.purpose (codes "conversation")) h in
    record { plain = (normalized_plain path n).1; scoped = a; section = b; guarded = g }

capture-Lacks : Lacks is_slash (codes "Capture")
capture-Lacks = (refl, (refl, (refl, (refl, (refl, (refl, (refl, tt)))))))

refused_unless :
    (a b : Bool) → (refuse_if (not a) other >> refuse_if (not b) other) ≡ ok tt → b ≡ true
refused_unless true true h = refl
refused_unless true false h = cc
refused_unless false b h = cc

not_both : (a b : Bool) → (a && b) ≡ false → b ≡ true → a ≡ false
not_both a b h k = ground arith

-- A prefix that a conversation may use admits nothing of the capture section.
no_capture :
    (prefix path : Text)
    → starts_with (codes "Capture/") prefix ≡ false
    → (if ends_with (codes "/") prefix then starts_with prefix path else text_eq path prefix) ≡ true
    → starts_with (codes "Capture/") path ≡ false
no_capture prefix path free h = elim (Bool-cases (starts_with (codes "Capture/") path)) [
  | inr clear ↦ clear
  | inl inside ↦ elim (Bool-cases (ends_with (codes "/") prefix)) [
    | inr e ↦ absurd (
        clash (ap (starts_with (codes "Capture/")) (sym (text_eq_sound path prefix (rw e at h))))
          inside free)
    | inl e ↦ elim (either_begins prefix (codes "Capture/") path (rw e at h) inside) [
      | inl k ↦ absurd (clash refl (begins_within (codes "Capture") prefix capture-Lacks k e) free)
      | inr k ↦ absurd (clash refl k free)
    ]
  ]
]
  where
    clash : {a b : Bool} → b ≡ a → a ≡ true → b ≡ false → ⊥
    clash p q r = cc

-- A path that a valid read scope allows has no backslash, no empty name and no name that begins with a
-- dot, as `..` does; one of its names is the scope's own, its first name is one of the four sections,
-- and for a conversation it lies outside the capture section.
pub validate-allows_path-IsConfined :
    (s : ReadScope) (now : ℕ) (path : Text)
    → validate s now ≡ ok tt
    → allows_path s path ≡ true
    → IsConfined s path
unfolding validate allows_path
validate-allows_path-IsConfined s now path valid allowed =
    let all_accepted : all (prefix_accepted s) s.allowed_prefixes ≡ true =
      refused_unless (fields_accepted s now) (all (prefix_accepted s) s.allowed_prefixes) valid in
    let tests =
      &&_iff (normalized path)
        (any (λ p. if ends_with (codes "/") p then starts_with p path else text_eq path p)
          s.allowed_prefixes)
        allowed in
    let own = normalized_plain path tests.0 in
    let (prefix, admits, good) =
      any-all (λ p. if ends_with (codes "/") p then starts_with p path else text_eq path p)
        (prefix_accepted s) s.allowed_prefixes tests.1 all_accepted in
    let a = accepted s prefix good in
    let (more, shared) = extends prefix path admits in
    let base = trim_end_matches is_slash prefix in
    record {
      visible = names-IsVisible (split is_slash path) own.1;
      no_backslash = own.0;
      own_name = subst (Any (λ name. name ≡ s.scope_id)) (sym shared) (
          Any-append_left (λ name. name ≡ s.scope_id) (split is_slash base) more
            (components_scope s.scope_id base a.scoped));
      in_section =
          subst (λ ws. one_of roots (first_of ws) ≡ true) (sym shared)
            (rw (first_of-append (split is_slash base) more (split-ne-nil is_slash base))
              (first_section base (split is_slash base) a.plain a.section));
      not_capture = λ e.
          no_capture prefix path
            (not_both (starts_with (codes "Capture/") prefix)
              (text_eq s.purpose (codes "conversation")) a.guarded
              (rw e (text_eq_refl (codes "conversation"))))
            admits;
    }
