-- ===== src/Tests/Sources.antt =====
-- Runs of src/vault/source.rs.
use obsidian_mcp.Common.{ℕ, ◌+◌, ◌≡◌, ◌≤◌, refl, none, some, List, [], ◌∷◌, arith}
use obsidian_mcp.Text.{Text, codes, slice, len}
use obsidian_mcp.Errors.{ok, ◌>>=◌}
use obsidian_mcp.Source.{
  SourceRange, SourceSnapshot, page, source_revision, validate_revision, snapshot, check_revision,
  validate_range, page_budget, page_end, cut_page,
}
use obsidian_mcp.Source.Headings.{HeadingPos, nest, headings_page}
use obsidian_mcp.Source.Nesting.{parents_of, nest-parents_of}
use obsidian_mcp.Source.Revision.{validate-source_revision}
use obsidian_mcp.Source.Pages.{IsPage, IsRange, page-IsPage, page_of, page_bounded}
use obsidian_mcp.Source.Reading.{read_all, read_all-slice}

-- A hash function of 32 bytes.
abbrev digest : Text → List ℕ
digest t =
    1 ∷ 2 ∷ 3 ∷ 4 ∷ 5 ∷ 6 ∷ 7 ∷ 8 ∷ 9 ∷ 10 ∷ 11 ∷ 12 ∷ 13 ∷ 14 ∷ 15 ∷ 16 ∷ 17 ∷ 18 ∷ 19 ∷ 20 ∷ 21
    ∷ 22 ∷ 23 ∷ 24 ∷ 25 ∷ 26 ∷ 27 ∷ 28 ∷ 29 ∷ 30 ∷ 254 ∷ 255 ∷ []

abbrev note : SourceSnapshot
note = snapshot digest (codes "aé€z")

abbrev whole : SourceRange
whole = record { start_byte = 0; end_byte = 7 }

whole-IsRange : IsRange note whole
unfolding snapshot
whole-IsRange = record { ordered = omega arith; inside = omega arith; starts = refl; ends = refl }

validate-source_revision_example : validate_revision (source_revision digest (codes "aé€z")) ≡ ok tt
validate-source_revision_example =
    validate-source_revision digest (codes "aé€z") refl (ground arith)

read_all-slice_example :
    (t : Text) × (slice note.content 0 7 ≡ some t) × (read_all 8 note (codes "n.md") 4 whole ≡ ok t)
unfolding snapshot source_revision
read_all-slice_example =
    read_all-slice note (codes "n.md") 4 validate-source_revision_example (omega arith)
      (omega arith) 8 whole whole-IsRange (omega arith)

page-IsPage_example : IsPage note whole (page_of note whole 7)
unfolding page check_revision validate_range page_budget page_end cut_page snapshot
page-IsPage_example = page-IsPage note (codes "n.md") none none none refl

page_bounded_example : len (page_of note whole 6).content ≤ 6
unfolding page check_revision validate_range page_budget page_end cut_page snapshot
page_bounded_example = page_bounded note (codes "n.md") none none 6 {p = page_of note whole 6} refl

abbrev heading : ℕ → ℕ → HeadingPos
heading level offset = record {
  level = level;
  text = [];
  line = 0;
  offset = offset;
  end = offset + 2;
}

abbrev headings : List HeadingPos
headings = heading 1 0 ∷ heading 3 10 ∷ heading 2 20 ∷ heading 3 30 ∷ heading 1 40 ∷ []

headings_nested :
    nest headings 0 [] (50 ∷ 50 ∷ 50 ∷ 50 ∷ 50 ∷ []) []
    ≡ (none ∷ some 0 ∷ some 0 ∷ some 2 ∷ none ∷ [], 40 ∷ 20 ∷ 40 ∷ 40 ∷ 50 ∷ [])
unfolding nest
headings_nested = refl

nest-parents_of_example :
    (nest headings 0 [] (50 ∷ 50 ∷ 50 ∷ 50 ∷ 50 ∷ []) []).0 ≡ parents_of headings 0 []
nest-parents_of_example = nest-parents_of headings (50 ∷ 50 ∷ 50 ∷ 50 ∷ 50 ∷ [])

page_of_headings :
    (headings_page (λ h. ok 10) (λ p. ok 5) note headings (codes "n.md") none 0 (some 2) none
      >>= λ p. ok p.next_heading_offset)
    ≡ ok (some 2)
unfolding headings_page check_revision snapshot
page_of_headings = refl
