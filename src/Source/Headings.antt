-- ===== src/Source/Headings.antt =====
-- Pages of headings (`SourceSnapshot::headings_page` of src/vault/source.rs). The headings of a text
-- and the sizes of encoded records come from elsewhere: they are parameters.
use obsidian_mcp.Common.{
  ℕ, zero, suc, ◌+◌, ◌-◌, min, Bool, not, ◌&&◌, Option, none, some, List, [], ◌∷◌, ◌++◌, length,
  take, drop, ltb, is_some, if◌then◌else◌,
}
use obsidian_mcp.Text.{Text, len, is_empty}
use obsidian_mcp.Errors.{Result, ok, invalid_source_range, ◌>>=◌, ◌>>◌, refuse_if}
use obsidian_mcp.Source.{
  SourceRange, SourceSnapshot, check_revision, validate_limit, max_page_bytes, default_page_bytes,
}

-- `HeadingPos` of src/vault/parser.rs: a heading, with the bytes of its line.
pub record HeadingPos : Type 0 where
  pub level : ℕ
  pub text : Text
  pub line : ℕ
  pub offset : ℕ
  pub end : ℕ

pub record SourceHeading : Type 0 where
  pub ordinal : ℕ
  pub parent_ordinal : Option ℕ
  pub level : ℕ
  pub text : Text
  pub text_truncated : Bool
  pub heading_range : SourceRange
  pub section_range : SourceRange

pub record SourceHeadingsPage : Type 0 where
  pub source_revision : Text
  pub source_bytes : ℕ
  pub total_headings : ℕ
  pub headings : List SourceHeading
  pub next_heading_offset : Option ℕ

-- `vec![x; n]`
abbrev pub replicate : ℕ → ℕ → List ℕ
replicate zero x = []
replicate (suc n) x = x ∷ replicate n x

-- `v[i] = x`
abbrev pub set_at : ℕ → ℕ → List ℕ → List ℕ
set_at i x [] = []
set_at zero x (y ∷ ys) = x ∷ ys
set_at (suc i) x (y ∷ ys) = y ∷ set_at i x ys

-- The inner loop: the sections that a heading of this level closes leave the stack. The stack has its
-- top first and keeps the level of each heading beside its ordinal.
unfoldable pub close_sections : ℕ → ℕ → List (ℕ × ℕ) → List ℕ → List (ℕ × ℕ) × List ℕ
close_sections level offset [] ends = ([], ends)
close_sections level offset ((previous, l) ∷ stack) ends =
    let rest = close_sections level offset stack (set_at previous offset ends) in
    if ltb l level then ((previous, l) ∷ stack, ends) else rest

abbrev pub top : List (ℕ × ℕ) → Option ℕ
top [] = none
top ((i, l) ∷ stack) = some i

-- The outer loop: the parents of the headings and the ends of their sections.
unfoldable pub nest :
    List HeadingPos → ℕ → List (Option ℕ) → List ℕ → List (ℕ × ℕ) → List (Option ℕ) × List ℕ
unfolding close_sections
nest [] i parents ends stack = (parents, ends)
nest (h ∷ hs) i parents ends stack =
    let (enclosing, closed) = close_sections h.level h.offset stack ends in
    nest hs (suc i) (parents ++ top enclosing ∷ []) closed ((i, h.level) ∷ enclosing)

-- One heading with its parent and the end of its section.
pub record Placed : Type 0 where
  pub heading : HeadingPos
  pub parent : Option ℕ
  pub section_end : ℕ

abbrev pub place : List HeadingPos → List (Option ℕ) → List ℕ → List Placed
place [] ps es = []
place (h ∷ hs) [] es = []
place (h ∷ hs) (p ∷ ps) [] = []
place (h ∷ hs) (p ∷ ps) (e ∷ es) =
    record { heading = h; parent = p; section_end = e } ∷ place hs ps es

-- the record of a heading
unfoldable pub heading_record : ℕ → Placed → SourceHeading
heading_record ordinal p = record {
  ordinal = ordinal;
  parent_ordinal = p.parent;
  level = p.heading.level;
  text = take 256 p.heading.text;
  text_truncated = ltb (len (take 256 p.heading.text)) (len p.heading.text);
  heading_range = record { start_byte = p.heading.offset; end_byte = p.heading.end };
  section_range = record { start_byte = p.heading.offset; end_byte = p.section_end };
}

module _ (heading_bytes : SourceHeading → Result ℕ)
    (page_bytes : SourceHeadingsPage → Result ℕ) where
  -- the loop that fills a page
  unfoldable pub fill : ℕ → ℕ → List Placed → SourceHeadingsPage → ℕ → Result SourceHeadingsPage
  unfolding heading_record
  fill max_bytes ordinal [] page records_bytes = ok page
  fill max_bytes ordinal (p ∷ ps) page records_bytes =
      let entry = heading_record ordinal p in
      let next = if ltb (ordinal + 1) page.total_headings then some (ordinal + 1) else none in
      let envelope = record page { headings = []; next_heading_offset = next } in
      heading_bytes entry >>= λ record_bytes. page_bytes envelope >>= λ envelope_bytes.
      let more =
        fill max_bytes (suc ordinal) ps
          (record page { headings = page.headings ++ entry ∷ []; next_heading_offset = next })
          (records_bytes + record_bytes) in
      if ltb max_bytes (envelope_bytes + records_bytes + record_bytes + length page.headings)
      then (refuse_if (is_empty page.headings) invalid_source_range
          >> ok (record page { next_heading_offset = some ordinal }))
      else more

  -- the last test of `headings_page`: an empty page must fit as well
  unfoldable pub fits : ℕ → SourceHeadingsPage → Result SourceHeadingsPage
  fits max_bytes page =
      if is_empty page.headings
      then (page_bytes page >>= λ n. refuse_if (ltb max_bytes n) invalid_source_range >> ok page)
      else ok page

  -- `SourceSnapshot::headings_page`, for the headings that the parser finds in the content
  unfoldable pub headings_page :
      SourceSnapshot
      → List HeadingPos
      → Text
      → Option Text
      → ℕ
      → Option ℕ
      → Option ℕ
      → Result SourceHeadingsPage
  unfolding check_revision validate_limit nest fill fits
  headings_page s headings path expected heading_offset max_headings max_bytes =
      refuse_if (ltb 0 heading_offset && not (is_some expected)) invalid_source_range
      >> (check_revision s path expected
          >> (validate_limit (elim max_headings [ none ↦ 100 | some n ↦ n ]) 1000 >>= λ max_count.
              validate_limit (elim max_bytes [ none ↦ default_page_bytes | some n ↦ n ])
                max_page_bytes
              >>= λ budget.
                  refuse_if (ltb (length headings) heading_offset) invalid_source_range
                  >> (let (parents, ends) =
                        nest headings 0 [] (replicate (length headings) (len s.content)) [] in
                      let last = min (length headings) (heading_offset + max_count) in
                      let chosen =
                        take (last - heading_offset)
                          (drop heading_offset (place headings parents ends)) in
                      let first : SourceHeadingsPage = record {
                        source_revision = s.source_revision;
                        source_bytes = len s.content;
                        total_headings = length headings;
                        headings = [];
                        next_heading_offset = none;
                      } in
                      fill budget heading_offset chosen first 0 >>= λ page. fits budget page)))
