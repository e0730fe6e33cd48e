-- ===== src/Tests/Sections.antt =====
-- Runs of src/vault/patch.rs on a note with two headings.
use obsidian_mcp.Common.{◌≡◌, refl, ℕ, false, List, [], ◌∷◌, arith}
use obsidian_mcp.Text.{Text, codes}
use obsidian_mcp.Errors.{ok, err, patch_target_not_found}
use obsidian_mcp.Models.{PatchRequest, PatchOperation, append, replace, heading}
use obsidian_mcp.Source.Headings.{HeadingPos}
use obsidian_mcp.Patch.{
  patch_heading, resolve_heading_range, resolve_segments, parse_heading, matching, is_match,
  section_end, spliced, normalize_heading_target_segment, split_path,
}
use obsidian_mcp.Patch.Sections.{Placed, Window, resolve_heading_range-Window}
use obsidian_mcp.Patch.Splices.{Spliced, cut_from, cut_to, patch_heading-Spliced}

abbrev note : Text
note = codes "# A\nx\n## B\ny\n# C"

abbrev first : HeadingPos
first = record { level = 1; text = codes "A"; line = 0; offset = 0; end = 4 }

abbrev second : HeadingPos
second = record { level = 2; text = codes "B"; line = 2; offset = 6; end = 11 }

abbrev third : HeadingPos
third = record { level = 1; text = codes "C"; line = 4; offset = 13; end = 16 }

abbrev headings : Text → List HeadingPos
headings _ = first ∷ second ∷ third ∷ []

abbrev request : PatchOperation → PatchRequest
request operation = record {
  operation = operation;
  target_type = heading;
  target = codes "a::## b";
  content = codes "new";
}

appended :
    patch_heading headings note (request append) (codes "n.md")
    ≡ ok (codes "# A\nx\n## B\ny\nnew\n# C")
unfolding patch_heading resolve_segments matching is_match section_end spliced parse_heading
    normalize_heading_target_segment
appended = refl

replaced :
    patch_heading headings note (request replace) (codes "n.md")
    ≡ ok (codes "# A\nx\n## B\nnew\n# C")
unfolding patch_heading resolve_segments matching is_match section_end spliced parse_heading
    normalize_heading_target_segment
replaced = refl

-- A section outside the one before it in the path is not found.
not_inside :
    resolve_heading_range note (headings note) (codes "C::B") (codes "n.md")
    ≡ err (patch_target_not_found (codes "n.md") (codes "heading") (codes "C::B"))
unfolding resolve_segments matching is_match section_end parse_heading
    normalize_heading_target_segment
not_inside = refl

pieces : split_path false (codes "a:b::c:::d") ≡ codes "a:b" ∷ codes "c" ∷ codes ":d" ∷ []
pieces = refl

first_Placed : Placed note (headings note) first
first_Placed = record {
  starts = refl;
  ends = refl;
  inside = omega arith;
  order = omega arith;
  apart = (λ h. omega (arith, h), (λ h. omega (arith, h), (λ h. omega (arith, h), tt)));
  clear = (λ h. omega (arith, h), (λ h. omega (arith, h), (λ h. omega (arith, h), tt)));
}

second_Placed : Placed note (headings note) second
second_Placed = record {
  starts = refl;
  ends = refl;
  inside = omega arith;
  order = omega arith;
  apart = (λ h. omega (arith, h), (λ h. omega (arith, h), (λ h. omega (arith, h), tt)));
  clear = (λ h. omega (arith, h), (λ h. omega (arith, h), (λ h. omega (arith, h), tt)));
}

third_Placed : Placed note (headings note) third
third_Placed = record {
  starts = refl;
  ends = refl;
  inside = omega arith;
  order = omega arith;
  apart = (λ h. omega (arith, h), (λ h. omega (arith, h), (λ h. omega (arith, h), tt)));
  clear = (λ h. omega (arith, h), (λ h. omega (arith, h), (λ h. omega (arith, h), tt)));
}

resolve_heading_range-Window_example : Window note (headings note) 11 13
unfolding resolve_segments matching is_match section_end parse_heading
    normalize_heading_target_segment
resolve_heading_range-Window_example =
    resolve_heading_range-Window note (headings note)
      (first_Placed, (second_Placed, (third_Placed, tt))) (codes "a::## b") (codes "n.md") refl

patch_heading-Spliced_example :
    (range : ℕ × ℕ) × (resolve_heading_range note (headings note) (codes "a::## b") (codes "n.md")
      ≡ ok range)
    × Spliced note
        (codes "new")
        (codes "# A\nx\n## B\ny\nnew\n# C")
        (cut_from append range)
        (cut_to append range)
patch_heading-Spliced_example =
    patch_heading-Spliced headings note (request append) (codes "n.md")
      (first_Placed, (second_Placed, (third_Placed, tt))) appended
