-- ===== src/Frontmatter/Body.antt =====
-- The range of a note's body (`SourceSnapshot::body_range` of src/vault/source.rs).
use obsidian_mcp.Common.{
  ◌≡◌, refl, sym, ap, ◌∙◌, subst, ℕ, ◌≤◌, Option, none, some, true, ◌++◌, [], arith, Option-cases,
  inl, inr,
}
use obsidian_mcp.Text.{Text, len, is_char_boundary}
use obsidian_mcp.Text.Offsets.{boundary_of_cut, boundary_end, len-append}
use obsidian_mcp.Errors.{ok}
use obsidian_mcp.Source.{SourceSnapshot, SourceRange, validate_range, sliced}
use obsidian_mcp.Frontmatter.{extract_raw_frontmatter, get_body}
use obsidian_mcp.Frontmatter.Location.{sliced_rest, extract_raw_frontmatter-Located, four_parts}

abbrev body_start : Option (Text × ℕ) → ℕ
body_start none = 0
body_start (some (_, offset)) = offset

-- `SourceSnapshot::body_range`
unfoldable pub body_range : SourceSnapshot → SourceRange
body_range s = record {
  start_byte = body_start (extract_raw_frontmatter s.content);
  end_byte = len s.content;
}

-- A start at which a text is cut, and its end, are a valid range.
valid_to_end :
    (s : SourceSnapshot) (u v : Text)
    → s.content ≡ u ++ v
    → validate_range s (record { start_byte = len u; end_byte = len s.content }) ≡ ok tt
unfolding validate_range
valid_to_end s u v e =
    let start : is_char_boundary s.content (len u) ≡ true =
      subst (λ t. is_char_boundary t (len u) ≡ true) (sym e) (boundary_of_cut u v) in
    let stop : is_char_boundary s.content (len s.content) ≡ true = boundary_end s.content in
    let order : len u ≤ len s.content = omega (arith, ap len e, len-append u v) in
    ground (arith, start, stop, order)

-- The body of a note is a valid range, and what stands in it is the text that `get_body` gives.
pub body_range-validate_range :
    (s : SourceSnapshot)
    → (validate_range s (body_range s) ≡ ok tt)
      × (sliced s.content (body_range s).start_byte (body_range s).end_byte ≡ get_body s.content)
unfolding body_range get_body
body_range-validate_range s = elim (Option-cases (extract_raw_frontmatter s.content)) [
  | inl e ↦ rw e (valid_to_end s [] s.content refl, sliced_rest [] s.content refl refl)
  | inr ((yaml, n), e) ↦
      let p = extract_raw_frontmatter-Located s.content e in
      let front = p.opening ++ (yaml ++ (p.line ++ p.ending)) in
      let flat : s.content ≡ front ++ get_body s.content =
        p.whole ∙ four_parts p.opening yaml p.line p.ending (get_body s.content) in
      rw e (
        subst (λ k. validate_range s (record { start_byte = k; end_byte = len s.content }) ≡ ok tt)
            p.measure (valid_to_end s front (get_body s.content) flat),
        refl,
      )
]
