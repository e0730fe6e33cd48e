-- ===== src/Patch/Insertions.antt =====
-- Where `find_block_ref` (src/vault/parser.rs) cuts a note, and what `patch_block` (src/vault/patch.rs)
-- keeps and puts in.
use obsidian_mcp.Common.{
  ◌≡◌, refl, sym, ap, ◌∙◌, ◌⊎◌, inl, inr, ℕ, ◌+◌, ◌-◌, true, some, [], ◌∷◌, ◌++◌, arith, Bool-cases,
  Option-cases, append_assoc, append-nil, some-eq, ◌==◌,
}
use obsidian_mcp.Text.{Text, codes, len, ends_with, text_eq, find_char, rfind_char}
use obsidian_mcp.Text.Compare.{text_eq_sound}
use obsidian_mcp.Text.Offsets.{len-append, find_char-Cut}
use obsidian_mcp.Frontmatter.Location.{sliced_part, sliced_rest}
use obsidian_mcp.Source.{sliced}
use obsidian_mcp.Patch.Blocks.{Match, BlockRef, block_at, after_newline, line_ends}

ends_with_sound : (p s : Text) → ends_with p s ≡ true → (u : Text) × (s ≡ u ++ p)
ends_with_sound p [] h = ([], sym (text_eq_sound p [] h))
ends_with_sound p (c ∷ s) h = elim (Bool-cases (text_eq p (c ∷ s))) [
  | inl e ↦ ([], sym (text_eq_sound p (c ∷ s) e))
  | inr e ↦ let (u, whole) = ends_with_sound p s (rw e at h) in (c ∷ u, ap (λ t. c ∷ t) whole)
]

rfind_char-Cut :
    (p : ℕ) (s : Text) {n : ℕ}
    → rfind_char p s ≡ some n
    → (u : Text) × (v : Text) × (s ≡ u ++ (p ∷ v)) × (len u ≡ n)
rfind_char-Cut p [] h = cc
rfind_char-Cut p (c ∷ s) h = elim (Option-cases (rfind_char p s)) [
  | inr (m, k) ↦
      let (u, v, whole, size) = rfind_char-Cut p s k in
      (c ∷ u, v, ap (λ t. c ∷ t) whole, omega (arith, size, some-eq (rw k at h)))
  | inl k ↦ elim (Bool-cases (c == p)) [
    | inl e ↦ ([], s, ground (arith, e), some-eq (rw (k, e) at h))
    | inr e ↦ cc (rw (k, e) at h)
  ]
]

-- An identifier stands in the text after a caret.
pub record Placed (content : Text) (id : Match) : Type 0 where
  pub before : Text
  pub text : Text
  pub after : Text
  pub whole : content ≡ before ++ ((b'^' ∷ text) ++ after)
  pub starts : len before + 1 ≡ id.start
  pub ends : id.start + len text ≡ id.end

-- The terminator of a line: none, or a line end.
abbrev pub Terminator : Text → Type 0
Terminator t = (t ≡ []) ⊎ ((t ≡ codes "\n") ⊎ (t ≡ codes "\r\n"))

-- The places at which a block reference cuts a text.
pub record Cuts (content : Text) (b : BlockRef) : Type 0 where
  pub above : Text
  pub line : Text
  pub marker : Text
  pub start_cut : content ≡ above ++ (line ++ marker)
  pub starts : len above ≡ b.line_start
  pub marks : len (above ++ line) ≡ b.marker_start
  pub upto : Text
  pub terminator : Text
  pub below : Text
  pub end_cut : content ≡ upto ++ (terminator ++ below)
  pub ends : len upto ≡ b.line_end
  pub resumes : len (upto ++ terminator) ≡ b.end_with_newline
  pub terminated : Terminator terminator

LineStart : Text → ℕ → Type 0
LineStart s n = (above : Text) × (line : Text) × (s ≡ above ++ line) × (len above ≡ n)

after_newline-LineStart : (s : Text) → LineStart s (after_newline (rfind_char b'\n' s))
unfolding LineStart
after_newline-LineStart s = elim (Option-cases (rfind_char b'\n' s)) [
  | inl e ↦ rw e ([], s, refl, refl)
  | inr (n, e) ↦
      let (u, v, whole, size) = rfind_char-Cut b'\n' s e in
      rw e (
        u ++ codes "\n",
        v,
        whole ∙ sym (append_assoc u (codes "\n") v),
        omega (arith, len-append u (codes "\n"), size),
      )
]

LineEnd : Text → ℕ × ℕ → Type 0
LineEnd content p =
    (upto : Text) × (terminator : Text) × (below : Text) × (content ≡ upto ++ (terminator ++ below))
    × (len upto ≡ p.0)
    × (len (upto ++ terminator) ≡ p.1)
    × Terminator terminator

line_ends-LineEnd :
    (content x after : Text) (from : ℕ)
    → content ≡ x ++ after
    → len x ≡ from
    → LineEnd content (line_ends content from (find_char b'\n' after))
unfolding LineEnd
line_ends-LineEnd content x after from whole size = elim (Option-cases (find_char b'\n' after)) [
  | inl e ↦
      rw e (content, [], [], sym (append-nil content), refl, ap len (append-nil content), inl refl)
  | inr (n, e) ↦
      let (t, below, cut, m, _) = find_char-Cut b'\n' after e in
      let all : content ≡ (x ++ t) ++ (codes "\n" ++ below) =
        whole ∙ ap (λ s. x ++ s) cut ∙ sym (append_assoc x t (codes "\n" ++ below)) in
      let upto : len (x ++ t) ≡ from + n = omega (arith, len-append x t, size, m) in
      let prefix : sliced content 0 (from + n) ≡ x ++ t =
        sliced_part [] (x ++ t) (codes "\n" ++ below) all refl upto in
      elim (Bool-cases (ends_with (codes "\r") (x ++ t))) [
        | inl k ↦
            let (w, ret) = ends_with_sound (codes "\r") (x ++ t) k in
            let flat : content ≡ w ++ (codes "\r\n" ++ below) =
              all
              ∙ ap (λ s. s ++ (codes "\n" ++ below)) ret
              ∙ append_assoc w (codes "\r") (codes "\n" ++ below) in
            let bytes : len w + 1 ≡ from + n =
              omega (arith, len-append w (codes "\r"), ap len ret, upto) in
            rw (e, prefix, k)
              (
                w,
                codes "\r\n",
                below,
                flat,
                omega (arith, bytes),
                omega (arith, bytes, len-append w (codes "\r\n")),
                inr (inr refl),
              )
        | inr k ↦
            rw (e, prefix, k)
              (
                x ++ t,
                codes "\n",
                below,
                all,
                upto,
                omega (arith, upto, len-append (x ++ t) (codes "\n")),
                inr (inl refl),
              )
      ]
]

-- A block reference to a placed identifier cuts the text at the start of its line, before the caret, and
-- around the end of its line.
pub block_at-Cuts :
    (content : Text) (id : Match) → Placed content id → Cuts content (block_at content id)
unfolding LineStart LineEnd
block_at-Cuts content id p =
    let marker : id.start - 1 ≡ len p.before = omega (arith, p.starts) in
    let first : sliced content 0 (id.start - 1) ≡ p.before =
      sliced_part [] p.before ((b'^' ∷ p.text) ++ p.after) p.whole refl (sym marker) in
    let front = p.before ++ (b'^' ∷ p.text) in
    let split : content ≡ front ++ p.after =
      p.whole ∙ sym (append_assoc p.before (b'^' ∷ p.text) p.after) in
    let size : len front ≡ id.end =
      omega (arith, len-append p.before (b'^' ∷ p.text), p.starts, p.ends) in
    let rest : sliced content id.end (len content) ≡ p.after =
      sliced_rest front p.after split size in
    let (above, line, ls, n) = after_newline-LineStart p.before in
    let (upto, terminator, below, lf, e0, e1, t) =
      line_ends-LineEnd content front p.after id.end split size in
    let behind = (b'^' ∷ p.text) ++ p.after in
    record {
      above = above;
      line = line;
      marker = behind;
      start_cut = p.whole ∙ ap (λ s. s ++ behind) ls ∙ append_assoc above line behind;
      starts = n ∙ ap (λ s. after_newline (rfind_char b'\n' s)) (sym first);
      marks = ap len (sym ls) ∙ sym marker;
      upto = upto;
      terminator = terminator;
      below = below;
      end_cut = lf;
      ends = e0 ∙ ap (λ s. (line_ends content id.end (find_char b'\n' s)).0) (sym rest);
      resumes = e1 ∙ ap (λ s. (line_ends content id.end (find_char b'\n' s)).1) (sym rest);
      terminated = t;
    }
