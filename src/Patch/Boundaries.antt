-- ===== src/Patch/Boundaries.antt =====
-- Where `frontmatter_boundaries` (src/vault/patch.rs) finds the frontmatter.
use obsidian_mcp.Common.{
  ◌≡◌, refl, sym, ap, ◌∙◌, subst, ◌⊎◌, inl, inr, ℕ, ◌+◌, true, not, Option, some, List, [], ◌∷◌,
  ◌++◌, arith, Bool-cases, Option-cases, append_assoc, some-eq, and_then, All,
}
use obsidian_mcp.Text.{Text, codes, len, split, starts_with, find_char}
use obsidian_mcp.Text.Offsets.{len-append, find_char-Cut}
use obsidian_mcp.Text.Split.{Lacks, join-split, split-Lacks}
use obsidian_mcp.Source.{sliced}
use obsidian_mcp.Frontmatter.{closing, is_newline}
use obsidian_mcp.Frontmatter.Scanning.{Found, Plain, terminated, closing-Found}
use obsidian_mcp.Frontmatter.Location.{sliced_part, sliced_rest, len_parts}
use obsidian_mcp.Patch.Fields.{
  FrontmatterRange, is_boundary, range_of, boundary_after, frontmatter_boundaries,
}

-- A note in five parts: a first line that is a boundary, the lines up to the next one, that one, the
-- end of its line, which only a text that ends there lacks, and the rest.
pub record Bounded (content : Text) (r : FrontmatterRange) : Type 0 where
  pub first_line : Text
  pub opening : Text
  pub yaml : Text
  pub line : Text
  pub ending : Text
  pub body : Text
  pub opened : opening ≡ first_line ++ codes "\n"
  pub opens_alone : Lacks is_newline first_line
  pub opens : is_boundary first_line ≡ true
  pub earlier : List Text
  pub lines : yaml ≡ terminated earlier
  pub whole_lines : All (Lacks is_newline) earlier
  pub plain : All (Plain is_boundary) earlier
  pub closes_alone : Lacks is_newline line
  pub boundary : is_boundary line ≡ true
  pub whole : content ≡ opening ++ (yaml ++ (line ++ (ending ++ body)))
  pub ended : (ending ≡ codes "\n") ⊎ ((ending ≡ []) × (body ≡ []))
  pub starts : len opening ≡ r.yaml_start
  pub ends : len (opening ++ yaml) ≡ r.yaml_end
  pub resumes : len (opening ++ (yaml ++ (line ++ ending))) ≡ r.body_start

range_of-Bounded :
    (content first_line opening rest : Text) (start stop : ℕ) (next : Option ℕ)
    → opening ≡ first_line ++ codes "\n"
    → Lacks is_newline first_line
    → is_boundary first_line ≡ true
    → content ≡ opening ++ rest
    → len opening ≡ start
    → Found is_boundary rest start stop next
    → Bounded content (range_of content start (stop, next))
range_of-Bounded content first_line opening rest start stop next opened alone opens whole size f =
    let all : content ≡ opening ++ (f.yaml ++ (f.line ++ f.after)) =
      whole ∙ ap (λ t. opening ++ t) f.whole in
    let ends : len (opening ++ f.yaml) ≡ stop =
      omega (arith, len-append opening f.yaml, size, f.before) in
    elim f.ended [
      | inl (en, ea) ↦
          let flat : content ≡ opening ++ (f.yaml ++ (f.line ++ ([] ++ []))) = cc (all, ea) in
          subst (λ n. Bounded content (range_of content start (stop, n))) (sym en)
            (record {
              first_line = first_line;
              opening = opening;
              opened = opened;
              opens_alone = alone;
              opens = opens;
              earlier = f.earlier;
              lines = f.lines;
              whole_lines = f.whole_lines;
              plain = f.plain;
              closes_alone = f.whole_line;
              yaml = f.yaml;
              line = f.line;
              ending = [];
              body = [];
              ended = inr (refl, refl);
              boundary = f.delimiter;
              whole = flat;
              starts = size;
              ends = ends;
              resumes = ap len (sym flat);
            })
      | inr (b, en, ea) ↦
          let flat : content ≡ opening ++ (f.yaml ++ (f.line ++ (codes "\n" ++ b))) =
            cc (all, ea) in
          subst (λ n. Bounded content (range_of content start (stop, n))) (sym en)
            (record {
              first_line = first_line;
              opening = opening;
              opened = opened;
              opens_alone = alone;
              opens = opens;
              earlier = f.earlier;
              lines = f.lines;
              whole_lines = f.whole_lines;
              plain = f.plain;
              closes_alone = f.whole_line;
              yaml = f.yaml;
              line = f.line;
              ending = codes "\n";
              body = b;
              ended = inl refl;
              boundary = f.delimiter;
              whole = flat;
              starts = size;
              ends = ends;
              resumes = omega (arith, len_parts opening f.yaml f.line (codes "\n"), size, f.before);
            })
    ]

boundary_after-Bounded :
    (content : Text) (first_nl : ℕ) {r : FrontmatterRange}
    → find_char b'\n' content ≡ some first_nl
    → boundary_after content first_nl ≡ some r
    → Bounded content r
boundary_after-Bounded content n {r} found h =
    let (u, rest, cut, size, alone) = find_char-Cut b'\n' content found in
    let opening = u ++ codes "\n" in
    let whole : content ≡ opening ++ rest = cut ∙ sym (append_assoc u (codes "\n") rest) in
    let start : len opening ≡ n + 1 = omega (arith, len-append u (codes "\n"), size) in
    let first : sliced content 0 n ≡ u = sliced_part [] u (b'\n' ∷ rest) cut refl size in
    let tail : sliced content (n + 1) (len content) ≡ rest = sliced_rest opening rest whole start in
    elim (Bool-cases (not (is_boundary (sliced content 0 n)))) [
      | inl e ↦ cc (rw e at h)
      | inr e ↦
          let known : and_then (closing is_boundary (n + 1) (split is_newline rest))
                (λ f. some (range_of content (n + 1) f))
              ≡ some r =
            rw (e, tail) at h in
          let opens : is_boundary u ≡ true = ground (arith, e, first) in
          elim (Option-cases (closing is_boundary (n + 1) (split is_newline rest))) [
            | inl k ↦ cc (rw k at known)
            | inr ((stop, next), k) ↦
                let f =
                  subst (λ t. Found is_boundary t (n + 1) stop next) (join-split b'\n' rest)
                    (closing-Found is_boundary (n + 1) (split is_newline rest)
                      (split-Lacks is_newline rest) k) in
                subst (Bounded content) (some-eq (rw k at known)) (
                  range_of-Bounded content u opening rest (n + 1) stop next refl alone opens whole
                    start f)
          ]
    ]

pub frontmatter_boundaries-Bounded :
    (content : Text) {r : FrontmatterRange}
    → frontmatter_boundaries content ≡ some r
    → Bounded content r
unfolding frontmatter_boundaries
frontmatter_boundaries-Bounded content h =
    elim (Bool-cases (not (starts_with (codes "---") content))) [
      | inl e ↦ cc (rw e at h)
      | inr e ↦ elim (Option-cases (find_char b'\n' content)) [
        | inl k ↦ cc (rw (e, k) at h)
        | inr (n, k) ↦ boundary_after-Bounded content n k (rw (e, k) at h)
      ]
    ]
