-- ===== src/Patch/Splices.antt =====
-- What `patch_heading` (src/vault/patch.rs) keeps and what it puts in.
use obsidian_mcp.Common.{
  ◌≡◌, refl, sym, ◌∙◌, subst, ◌⊎◌, inl, inr, ℕ, ◌≤◌, Bool, true, false, not, ◌&&◌, List, [], ◌++◌,
  arith, Bool-cases, append_assoc, append-nil, ltb, if◌then◌else◌,
}
use obsidian_mcp.Text.{Text, codes, len, is_empty, ends_with, is_char_boundary}
use obsidian_mcp.Text.Slices.{Between, between}
use obsidian_mcp.Errors.{ok, >>=-inversion, ok-injective}
use obsidian_mcp.Models.{PatchOperation, append, prepend, replace, PatchRequest}
use obsidian_mcp.Source.{sliced}
use obsidian_mcp.Source.Headings.{HeadingPos}
use obsidian_mcp.Frontmatter.Location.{sliced_part, sliced_rest}
use obsidian_mcp.Patch.{ensure_trailing_newline, spliced, patch_heading, resolve_heading_range}
use obsidian_mcp.Patch.Sections.{AllPlaced, resolve_heading_range-Window}

-- Nothing, or the end of a line.
abbrev pub Glue : Text → Type 0
Glue g = (g ≡ []) ⊎ (g ≡ codes "\n")

abbrev Glued : Text → Text → Type 0
Glued s t = (g : Text) × Glue g × (t ≡ s ++ g)

ensure_trailing_newline-Glued : (s : Text) → Glued s (ensure_trailing_newline s)
ensure_trailing_newline-Glued s =
    elim (Bool-cases (not (is_empty s) && not (ends_with (codes "\n") s))) [
      | inl e ↦ rw e (codes "\n", inr refl, refl)
      | inr e ↦ rw e ([], inl refl, sym (append-nil s))
    ]

Glued-if : (t : Text) (c : Bool) → Glued t (if c then ensure_trailing_newline t else t)
Glued-if t true = ensure_trailing_newline-Glued t
Glued-if t false = ([], inl refl, sym (append-nil t))

-- The bytes that an operation on a range replaces.
abbrev pub cut_from : PatchOperation → ℕ × ℕ → ℕ
cut_from append (a, b) = b
cut_from _ (a, b) = a

abbrev pub cut_to : PatchOperation → ℕ × ℕ → ℕ
cut_to prepend (a, b) = a
cut_to _ (a, b) = b

-- A text with a part of it replaced by another text, and with something that joins it to what stands
-- before it and after it.
pub record SplicedBy (Joint : Text → Type 0) (content inserted out : Text) (from to : ℕ)
    : Type 0 where
  pub before : Text
  pub removed : Text
  pub after : Text
  pub first : Text
  pub second : Text
  pub whole : content ≡ before ++ (removed ++ after)
  pub starts : len before ≡ from
  pub ends : len (before ++ removed) ≡ to
  pub first_joint : Joint first
  pub second_joint : Joint second
  pub result : out ≡ before ++ (first ++ (inserted ++ (second ++ after)))

-- A line end may join the texts.
abbrev pub Spliced : Text → Text → Text → ℕ → ℕ → Type 0
Spliced = SplicedBy Glue

pub SplicedBy-parts :
    (Joint : Text → Type 0) (content inserted start rest out first second : Text) {a b : ℕ}
    (p : Between content a b)
    → sliced content 0 a ≡ start
    → sliced content b (len content) ≡ rest
    → Joint first
    → Joint second
    → out ≡ start ++ (first ++ (inserted ++ (second ++ rest)))
    → SplicedBy Joint content inserted out a b
SplicedBy-parts Joint content inserted start rest out first second p es er f g e =
    let before : p.before ≡ start =
      sym (sliced_part [] p.before (p.middle ++ p.after) p.whole refl p.from) ∙ es in
    let after : p.after ≡ rest =
      sym (
        sliced_rest (p.before ++ p.middle) p.after
          (p.whole ∙ sym (append_assoc p.before p.middle p.after)) p.to)
      ∙ er in
    record {
      before = p.before;
      removed = p.middle;
      after = p.after;
      first = first;
      second = second;
      whole = p.whole;
      starts = p.from;
      ends = p.to;
      first_joint = f;
      second_joint = g;
      result = e ∙ (λ i. sym before i ++ (first ++ (inserted ++ (second ++ sym after i))));
    }

Spliced-parts :
    (content inserted start rest t : Text) {a b : ℕ} (p : Between content a b)
    → sliced content 0 a ≡ start
    → sliced content b (len content) ≡ rest
    → Glued (ensure_trailing_newline start ++ inserted) t
    → Spliced content inserted (t ++ rest) a b
Spliced-parts content inserted start rest t p es er (second, g, e) =
    let (first, f, k) = ensure_trailing_newline-Glued start in
    SplicedBy-parts Glue content inserted start rest (t ++ rest) first second p es er f g
      (rw (e, k) (simp append_assoc))

module _ (content inserted : Text) (a b : ℕ) (ha : is_char_boundary content a ≡ true)
    (hb : is_char_boundary content b ≡ true) (le : a ≤ b) where
  spliced-Spliced :
      (op : PatchOperation)
      → Spliced content inserted
          (spliced op content inserted (a, b))
          (cut_from op (a, b))
          (cut_to op (a, b))
  unfolding spliced
  spliced-Spliced append =
      Spliced-parts content inserted (sliced content 0 b) (sliced content b (len content))
        (ensure_trailing_newline (ensure_trailing_newline (sliced content 0 b) ++ inserted))
        (between content b b hb hb (omega arith)) refl refl
        (ensure_trailing_newline-Glued (ensure_trailing_newline (sliced content 0 b) ++ inserted))
  spliced-Spliced prepend =
      Spliced-parts content inserted (sliced content 0 a) (sliced content a (len content))
        (ensure_trailing_newline (ensure_trailing_newline (sliced content 0 a) ++ inserted))
        (between content a a ha ha (omega arith)) refl refl
        (ensure_trailing_newline-Glued (ensure_trailing_newline (sliced content 0 a) ++ inserted))
  spliced-Spliced replace =
      let patched = ensure_trailing_newline (sliced content 0 a) ++ inserted in
      Spliced-parts content inserted (sliced content 0 a) (sliced content b (len content))
        (if ltb b (len content) then ensure_trailing_newline patched else patched)
        (between content a b ha hb le) refl refl (Glued-if patched (ltb b (len content)))

-- A patch at a heading puts its text into the section that the target names, and keeps the rest of the
-- note: to prepend cuts nothing after the heading's line, to append nothing at the section's end, and to
-- replace the text between the two.
pub patch_heading-Spliced :
    (extract : Text → List HeadingPos) (content : Text) (request : PatchRequest) (path : Text)
    {out : Text}
    → AllPlaced content (extract content)
    → patch_heading extract content request path ≡ ok out
    → (range : ℕ × ℕ) × (resolve_heading_range content (extract content) request.target path
        ≡ ok range)
      × Spliced content request.content out
          (cut_from request.operation range)
          (cut_to request.operation range)
unfolding patch_heading
patch_heading-Spliced extract content request path placed h =
    let known =
      >>=-inversion (λ range. ok (spliced request.operation content request.content range))
        (resolve_heading_range content (extract content) request.target path) h in
    let w =
      resolve_heading_range-Window content (extract content) placed request.target path
        known.begun in
    (
      known.middle,
      known.begun,
      subst
          (λ t.
            Spliced content request.content t (cut_from request.operation known.middle)
              (cut_to request.operation known.middle))
          (ok-injective known.ended)
          (spliced-Spliced content request.content (known.middle.0) (known.middle.1) w.starts w.ends
            w.order request.operation),
    )
