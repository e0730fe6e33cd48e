-- ===== src/Patch/Sections.antt =====
-- The range that `resolve_heading_range` (src/vault/patch.rs) finds.
use obsidian_mcp.Common.{
  ◌≡◌, ◌∙◌, subst, inl, inr, ℕ, ◌≤◌, ◌<◌, min, Bool, true, false, some, List, [], ◌∷◌, arith,
  Bool-cases, Option-cases, some-eq, All, All-and, find, leb,
}
use obsidian_mcp.Text.{Text, len, is_char_boundary, trim}
use obsidian_mcp.Text.Offsets.{boundary_of_cut, boundary_end}
use obsidian_mcp.Errors.{ok, ok-injective}
use obsidian_mcp.Source.Headings.{HeadingPos}
use obsidian_mcp.Patch.{
  is_match, matching, resolve_heading_range, split_path, closes, section_end, resolve_segments,
  normalize_heading_target_segment,
}

-- A heading's line lies in the text, and does not overlap with that of another heading.
pub record Placed (content : Text) (headings : List HeadingPos) (h : HeadingPos) : Type 0 where
  pub starts : is_char_boundary content h.offset ≡ true
  pub ends : is_char_boundary content h.end ≡ true
  pub inside : h.end ≤ len content
  pub order : h.offset ≤ h.end
  pub apart : All (λ next. h.offset < next.offset → h.end ≤ next.offset) headings
  pub clear : All (λ k. k.offset < h.offset → k.end ≤ h.offset) headings

abbrev pub AllPlaced : Text → List HeadingPos → Type 0
AllPlaced content headings = All (Placed content headings) headings

-- What is found in a list is a member, and passes the test.
find-All :
    (P : HeadingPos → Type 0) (p : HeadingPos → Bool) (hs : List HeadingPos) {h : HeadingPos}
    → All P hs
    → find p hs ≡ some h
    → P h × (p h ≡ true)
find-All P p [] _ e = cc
find-All P p (x ∷ hs) (px, ps) e = elim (Bool-cases (p x)) [
  | inl k ↦ subst (λ y. P y × (p y ≡ true)) (some-eq (rw k at e)) (px, k)
  | inr k ↦ find-All P p hs ps (rw k at e)
]

-- A range into which headings fit: one that starts in it ends in it.
pub record Window (content : Text) (headings : List HeadingPos) (from to : ℕ) : Type 0 where
  pub starts : is_char_boundary content from ≡ true
  pub ends : is_char_boundary content to ≡ true
  pub order : from ≤ to
  pub inside : to ≤ len content
  pub fits : All (λ h. h.offset < to → h.end ≤ to) headings

All-map :
    {P Q : HeadingPos → Type 0} (hs : List HeadingPos)
    → ((h : HeadingPos) → P h → Q h)
    → All P hs
    → All Q hs
All-map [] f _ = tt
All-map (h ∷ hs) f (p, ps) = (f h p, All-map hs f ps)

module _ (content : Text) (headings : List HeadingPos) (placed : AllPlaced content headings) where
  found_in :
      (from to : ℕ) (candidate : Text) (w : Window content headings from to) {h : HeadingPos}
      → find (is_match content from to candidate) headings ≡ some h
      → Placed content headings h × (h.end ≤ to)
  unfolding is_match
  found_in from to candidate w {h} e =
      let ((p, fit), test) =
        find-All (λ k. Placed content headings k × (k.offset < to → k.end ≤ to))
          (is_match content from to candidate) headings
          (All-and (Placed content headings) (λ k. k.offset < to → k.end ≤ to) headings placed
            w.fits)
          e in
      (p, fit (ground (arith, test)))

  matching-Placed :
      (from to : ℕ) (segment : Text) (w : Window content headings from to) {h : HeadingPos}
      → matching content headings from to segment ≡ some h
      → Placed content headings h × (h.end ≤ to)
  unfolding matching
  matching-Placed from to segment w e =
      elim (Option-cases (find (is_match content from to (trim segment)) headings)) [
        | inl k ↦ found_in from to (normalize_heading_target_segment segment) w (rw k at e)
        | inr (h, k) ↦ found_in from to (trim segment) w (k ∙ rw k at e)
      ]

  boundary_start : is_char_boundary content 0 ≡ true
  boundary_start = boundary_of_cut [] content

  Window-to_end :
      (from : ℕ)
      → is_char_boundary content from ≡ true
      → from ≤ len content
      → Window content headings from (len content)
  Window-to_end from b le = record {
    starts = b;
    ends = boundary_end content;
    order = le;
    inside = omega arith;
    fits = All-map headings (λ h p _. p.inside) placed;
  }

  section-Window :
      (h : HeadingPos)
      → Placed content headings h
      → Window content headings h.end (section_end (len content) headings h)
  unfolding section_end
  section-Window h p = elim (Option-cases (find (closes h) headings)) [
    | inl e ↦ rw e (Window-to_end h.end p.ends p.inside)
    | inr (next, e) ↦
        let ((q, gap), test) =
          find-All (λ k. Placed content headings k × (h.offset < k.offset → h.end ≤ k.offset))
            (closes h) headings
            (All-and (Placed content headings) (λ k. h.offset < k.offset → h.end ≤ k.offset)
              headings placed p.apart)
            e in
        rw e (record {
          starts = p.ends;
          ends = q.starts;
          order = gap (ground (arith, test));
          inside = omega (arith, q.inside, q.order);
          fits = q.clear;
        })
  ]

  Window-min :
      (from to m n : ℕ)
      → Window content headings from m
      → Window content headings to n
      → from ≤ n
      → Window content headings from (min m n)
  Window-min from to m n v w le = elim (Bool-cases (leb m n)) [
    | inl e ↦ subst (Window content headings from) {x = m} {y = min m n} (ground (arith, e)) v
    | inr e ↦
        subst (Window content headings from) {x = n} {y = min m n} (ground (arith, e)) (record {
          starts = v.starts;
          ends = w.ends;
          order = le;
          inside = w.inside;
          fits = w.fits;
        })
  ]

  resolve_segments-Window :
      (target path : Text) (segments : List Text) (from to : ℕ) {r : ℕ × ℕ}
      → Window content headings from to
      → resolve_segments content headings target path segments from to ≡ ok r
      → Window content headings (r.0) (r.1)
  unfolding resolve_segments
  resolve_segments-Window target path [] from to w e =
      subst (λ r. Window content headings (r.0) (r.1)) (ok-injective e) w
  resolve_segments-Window target path (segment ∷ more) from to {r} w e =
      elim (Option-cases (matching content headings from to segment)) [
        | inl k ↦ cc (rw k at e)
        | inr (h, k) ↦
            let (p, le) = matching-Placed from to segment w k in
            resolve_segments-Window target path more h.end
              (min (section_end (len content) headings h) to)
              (Window-min h.end from (section_end (len content) headings h) to (section-Window h p)
                w le)
              (rw k at e)
      ]

  -- The range found for a target begins and ends at character boundaries of the text, in this order, and
  -- no heading that begins in it ends outside.
  pub resolve_heading_range-Window :
      (target path : Text) {r : ℕ × ℕ}
      → resolve_heading_range content headings target path ≡ ok r
      → Window content headings (r.0) (r.1)
  resolve_heading_range-Window target path e =
      resolve_segments-Window target path (split_path false target) 0 (len content)
        (Window-to_end 0 boundary_start (omega arith)) e
