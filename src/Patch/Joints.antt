-- ===== src/Patch/Joints.antt =====
-- What `patch_block` (src/vault/patch.rs) keeps of a note, and what it puts in.
use obsidian_mcp.Common.{
  ◌≡◌, refl, sym, ◌∙◌, subst, ◌⊎◌, inl, inr, ℕ, ◌≤◌, true, not, ◌&&◌, some, List, [], ◌∷◌, ◌++◌,
  arith, Bool-cases, append_assoc, append-nil, some-eq, All, find,
}
use obsidian_mcp.Text.{Text, codes, len, is_empty, ends_with, is_char_boundary}
use obsidian_mcp.Text.Offsets.{len-append, boundary_of_cut}
use obsidian_mcp.Text.Slices.{between}
use obsidian_mcp.Errors.{
  ok, patch_target_not_found, ok_or, ok_or-inversion, >>=-inversion, ok-injective,
}
use obsidian_mcp.Models.{PatchOperation, append, prepend, replace, PatchRequest}
use obsidian_mcp.Frontmatter.Location.{sliced_part}
use obsidian_mcp.Source.{sliced}
use obsidian_mcp.Patch.Splices.{SplicedBy, SplicedBy-parts}
use obsidian_mcp.Patch.Blocks.{
  Match, BlockRef, has_id, block_id_of, newline_of, with_newline, newline_at, inserted_at, spaced,
  patched_block, find_block_ref, patch_block, block_of,
}
use obsidian_mcp.Patch.Insertions.{Placed, Cuts, Terminator, block_at-Cuts}

-- Nothing, a line end or a blank.
abbrev pub Joint : Text → Type 0
Joint t = (t ≡ []) ⊎ ((t ≡ codes "\n") ⊎ ((t ≡ codes "\r\n") ⊎ (t ≡ codes " ")))

abbrev pub block_from : PatchOperation → BlockRef → ℕ
block_from append b = b.end_with_newline
block_from _ b = b.line_start

abbrev pub block_to : PatchOperation → BlockRef → ℕ
block_to append b = b.end_with_newline
block_to prepend b = b.line_start
block_to replace b = b.marker_start

newline_of-Joint :
    (terminator before : Text) → Terminator terminator → Joint (newline_of terminator before)
newline_of-Joint terminator before h = elim (Bool-cases (is_empty terminator)) [
  | inl e ↦ elim (Bool-cases (ends_with (codes "\r\n") before)) [
    | inl k ↦ rw (e, k) (inr (inr (inl refl)))
    | inr k ↦ rw (e, k) (inr (inl refl))
  ]
  | inr e ↦ rw e (joint h)
]
  where
    joint : Terminator terminator → Joint terminator
    joint (inl x) = inl x
    joint (inr (inl x)) = inr (inl x)
    joint (inr (inr x)) = inr (inr (inl x))

Joined : Text → Text → Type 0
Joined s t = (g : Text) × Joint g × (t ≡ s ++ g)

with_newline-Joined : (newline s : Text) → Joint newline → Joined s (with_newline newline s)
unfolding Joined
with_newline-Joined newline s h =
    elim (Bool-cases (not (is_empty s) && not (ends_with (codes "\n") s))) [
      | inl e ↦ rw e (newline, h, refl)
      | inr e ↦ rw e ([], inl refl, sym (append-nil s))
    ]

boundary_at :
    (content u v : Text) {n : ℕ} → content ≡ u ++ v → len u ≡ n → is_char_boundary content n ≡ true
boundary_at content u v e m =
    subst (λ k. is_char_boundary content k ≡ true) m
      (subst (λ t. is_char_boundary t (len u) ≡ true) (sym e) (boundary_of_cut u v))

inserted_at-SplicedBy :
    (content inserted newline : Text) (n : ℕ)
    → is_char_boundary content n ≡ true
    → Joint newline
    → SplicedBy Joint content inserted (inserted_at content inserted newline n) n n
unfolding Joined
inserted_at-SplicedBy content inserted newline n h j =
    let start = sliced content 0 n in
    let (first, f, k) = with_newline-Joined newline start j in
    let (second, g, e) = with_newline-Joined newline (with_newline newline start ++ inserted) j in
    SplicedBy-parts Joint content inserted start (sliced content n (len content))
      (inserted_at content inserted newline n) first second (between content n n h h (omega arith))
      refl refl f g (rw (e, k) (simp append_assoc))

replaced-SplicedBy :
    (content inserted : Text) (a b : ℕ)
    → is_char_boundary content a ≡ true
    → is_char_boundary content b ≡ true
    → a ≤ b
    → SplicedBy Joint content inserted
        (sliced content 0 a ++ (spaced inserted ++ sliced content b (len content)))
        a
        b
replaced-SplicedBy content [] a b ha hb le =
    SplicedBy-parts Joint content [] (sliced content 0 a) (sliced content b (len content))
      (sliced content 0 a ++ sliced content b (len content)) [] [] (between content a b ha hb le)
      refl refl (inl refl) (inl refl) refl
replaced-SplicedBy content (c ∷ inserted) a b ha hb le =
    let rest = sliced content b (len content) in
    SplicedBy-parts Joint content (c ∷ inserted) (sliced content 0 a) rest
      (sliced content 0 a ++ (spaced (c ∷ inserted) ++ rest)) [] (codes " ")
      (between content a b ha hb le) refl refl (inl refl) (inr (inr (inr refl))) (simp append_assoc)

module _ (content inserted : Text) (b : BlockRef) (c : Cuts content b) where
  newline_at-Joint : Joint (newline_at content b)
  newline_at-Joint =
      let slice : sliced content b.line_end b.end_with_newline ≡ c.terminator =
        sliced_part c.upto c.terminator c.below c.end_cut c.ends c.resumes in
      newline_of-Joint (sliced content b.line_end b.end_with_newline)
        (sliced content 0 b.line_start) (subst Terminator (sym slice) c.terminated)

  start_boundary : is_char_boundary content b.line_start ≡ true
  start_boundary = boundary_at content c.above (c.line ++ c.marker) c.start_cut c.starts

  patched_block-SplicedBy :
      (op : PatchOperation)
      → SplicedBy Joint content inserted
          (patched_block op content inserted b)
          (block_from op b)
          (block_to op b)
  unfolding patched_block
  patched_block-SplicedBy prepend =
      inserted_at-SplicedBy content inserted (newline_at content b) b.line_start start_boundary
        newline_at-Joint
  patched_block-SplicedBy append =
      inserted_at-SplicedBy content inserted (newline_at content b) b.end_with_newline
        (boundary_at content (c.upto ++ c.terminator) c.below
          (c.end_cut ∙ sym (append_assoc c.upto c.terminator c.below)) c.resumes)
        newline_at-Joint
  patched_block-SplicedBy replace =
      replaced-SplicedBy content inserted b.line_start b.marker_start start_boundary
        (boundary_at content (c.above ++ c.line) c.marker
          (c.start_cut ∙ sym (append_assoc c.above c.line c.marker)) c.marks)
        (omega (arith, c.starts, c.marks, len-append c.above c.line))

find_block_ref-Cuts :
    (ids : Text → List Match) (content block_id : Text) {b : BlockRef}
    → All (Placed content) (ids content)
    → find_block_ref ids content block_id ≡ some b
    → Cuts content b
unfolding find_block_ref
find_block_ref-Cuts ids content block_id placed h = found (ids content) placed h
  where
    found :
        (ms : List Match) {c : BlockRef}
        → All (Placed content) ms
        → block_of content (find (has_id content block_id) ms) ≡ some c
        → Cuts content c
    found [] _ e = cc
    found (m ∷ ms) (p, ps) e = elim (Bool-cases (has_id content block_id m)) [
      | inl k ↦ subst (Cuts content) (some-eq (rw k at e)) (block_at-Cuts content m p)
      | inr k ↦ found ms ps (rw k at e)
    ]

-- A patch at a block reference puts its text in and keeps the rest of the note: to prepend cuts nothing at
-- the start of the block's line, to append nothing after it, and to replace the line up to the marker.
pub patch_block-SplicedBy :
    (ids : Text → List Match) (content : Text) (request : PatchRequest) (path : Text) {out : Text}
    → All (Placed content) (ids content)
    → patch_block ids content request path ≡ ok out
    → (b : BlockRef) × (find_block_ref ids content (block_id_of request.target) ≡ some b)
      × SplicedBy Joint content request.content out
          (block_from request.operation b)
          (block_to request.operation b)
unfolding patch_block
patch_block-SplicedBy ids content request path placed h =
    let target = patch_target_not_found path (codes "block") request.target in
    let known =
      >>=-inversion (λ b. ok (patched_block request.operation content request.content b))
        (ok_or target (find_block_ref ids content (block_id_of request.target))) h in
    let b = known.middle in
    let found =
      ok_or-inversion target (find_block_ref ids content (block_id_of request.target))
        known.begun in
    (
      b,
      found,
      subst
          (λ t.
            SplicedBy Joint content request.content t (block_from request.operation b)
              (block_to request.operation b))
          (ok-injective known.ended)
          (patched_block-SplicedBy content request.content b
            (find_block_ref-Cuts ids content (block_id_of request.target) placed found)
            request.operation),
    )
