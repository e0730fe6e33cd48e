-- ===== src/Frontmatter/Framing.antt =====
-- A note put together from a YAML text and a body, as `rebuild_content` (src/vault/frontmatter.rs) does.
use obsidian_mcp.Common.{
  ◌≡◌, ◌≢◌, refl, ap, ◌∙◌, ℕ, ◌+◌, Option, some, List, [], ◌∷◌, ◌++◌, arith, append_assoc, All,
}
use obsidian_mcp.Text.{Text, codes, len, join, split}
use obsidian_mcp.Text.Offsets.{len-append}
use obsidian_mcp.Text.Split.{join-split, split-append_separator, split-ne-nil}
use obsidian_mcp.Source.{sliced}
use obsidian_mcp.Frontmatter.{
  is_delimiter, is_newline, closing, after_open, extract_raw_frontmatter, get_body, located, framed,
}
use obsidian_mcp.Frontmatter.Scanning.{Plain, closing-first}
use obsidian_mcp.Frontmatter.Location.{sliced_part, sliced_rest, get_body-at}

-- A YAML text of whole lines that are no delimiters.
pub record YamlLines (yaml : Text) : Type 0 where
  pub start : Text
  pub whole : yaml ≡ start ++ codes "\n"
  pub plain : All (Plain is_delimiter) (split is_newline start)

extract_raw_frontmatter-located :
    (content rest : Text) (start : ℕ) (found : ℕ × Option ℕ)
    → after_open content ≡ some start
    → sliced content start (len content) ≡ rest
    → closing is_delimiter 0 (split is_newline rest) ≡ some found
    → extract_raw_frontmatter content ≡ some (located content start found)
unfolding extract_raw_frontmatter
extract_raw_frontmatter-located content rest start found e cut k = rw (e, cut, k) refl

-- The loop on a YAML text, a closing line and a body.
closing-framed :
    (yaml body : Text)
    → YamlLines yaml
    → closing is_delimiter 0 (split is_newline (yaml ++ (codes "---\n" ++ body)))
      ≡ some (len yaml, some (len yaml + 4))
closing-framed yaml body y =
    let pieces : split is_newline (yaml ++ (codes "---\n" ++ body))
        ≡ split is_newline y.start ++ (codes "---" ∷ split is_newline body) =
      ap (λ t. split is_newline (t ++ (codes "---\n" ++ body))) y.whole
      ∙ ap (split is_newline) (append_assoc y.start (codes "\n") (codes "---\n" ++ body))
      ∙ split-append_separator is_newline y.start b'\n' (codes "---\n" ++ body) refl in
    let size : len yaml ≡ len y.start + 1 =
      omega (arith, ap len y.whole, len-append y.start (codes "\n")) in
    rw (pieces, size)
      (closing-lines (split is_newline y.start) (split is_newline body) y.start y.plain
        (split-ne-nil is_newline y.start) (split-ne-nil is_newline body) (join-split b'\n' y.start))
  where
    closing-lines :
        (ls bs : List Text) (t : Text)
        → All (Plain is_delimiter) ls
        → ls ≢ []
        → bs ≢ []
        → join (b'\n' ∷ []) ls ≡ t
        → closing is_delimiter 0 (ls ++ (codes "---" ∷ bs)) ≡ some (len t + 1, some (len t + 1 + 4))
    closing-lines [] bs t h n m e = absurd (n refl)
    closing-lines (l ∷ ls) [] t h n m e = absurd (m refl)
    closing-lines (l ∷ ls) (b ∷ bs) t h n m e =
        let joined = join (b'\n' ∷ []) (l ∷ ls) in
        let at : 0 + len joined + 1 ≡ len t + 1 = omega (arith, ap len e) in
        let next : 0 + len joined + 1 + 3 + 1 ≡ len t + 1 + 4 = omega (arith, ap len e) in
        closing-first is_delimiter 0 l ls (codes "---") b bs h refl
        ∙ (λ i. some (at i, some (next i)))

-- A note between `---` lines is taken apart where it was put together.
pub extract_raw_frontmatter-framed :
    (yaml body : Text)
    → YamlLines yaml
    → extract_raw_frontmatter (framed yaml body) ≡ some (yaml, 4 + (len yaml + 4))
extract_raw_frontmatter-framed yaml body y =
    let rest = yaml ++ (codes "---\n" ++ body) in
    extract_raw_frontmatter-located (framed yaml body) rest 4 (len yaml, some (len yaml + 4)) refl
      (sliced_rest (codes "---\n") rest refl refl) (closing-framed yaml body y)
    ∙ ap (λ t. some (t, 4 + (len yaml + 4)))
        (sliced_part (codes "---\n") yaml (codes "---\n" ++ body) refl refl
          (len-append (codes "---\n") yaml))

pub get_body-framed : (yaml body : Text) → YamlLines yaml → get_body (framed yaml body) ≡ body
get_body-framed yaml body y =
    let n = 4 + (len yaml + 4) in
    get_body-at (framed yaml body) yaml n (extract_raw_frontmatter-framed yaml body y)
    ∙ sliced_rest {s = framed yaml body} {a = n} (codes "---\n" ++ (yaml ++ codes "---\n")) body
        (simp append_assoc) (omega (arith, len-append yaml (codes "---\n")))
