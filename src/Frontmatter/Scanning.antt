-- ===== src/Frontmatter/Scanning.antt =====
-- The loop of `extract_raw_frontmatter` (src/vault/frontmatter.rs) on the lines after the opening line.
use obsidian_mcp.Common.{
  ◌≡◌, refl, sym, ap, ◌∙◌, ◌⊎◌, inl, inr, ℕ, ◌+◌, Bool, true, false, Option, none, some, List, [],
  ◌∷◌, ◌++◌, arith, Bool-cases, append_assoc, append-nil, some-eq, subst, All,
}
use obsidian_mcp.Text.{Text, len, join}
use obsidian_mcp.Text.Offsets.{len-append}
use obsidian_mcp.Text.Split.{Lacks}
use obsidian_mcp.Frontmatter.{closing, is_newline}

-- What follows the delimiter line: nothing, or the end of the line and the body.
abbrev pub Ended : (stop : ℕ) → Option ℕ → Text → Type 0
Ended stop next after =
    ((next ≡ none) × (after ≡ []))
    ⊎ ((body : Text) × (next ≡ some (stop + 1)) × (after ≡ b'\n' ∷ body))

-- A line that is no delimiter.
abbrev pub Plain : (Text → Bool) → Text → Type 0
Plain test line = test line ≡ false

-- Lines with their ends.
abbrev pub terminated : List Text → Text
terminated [] = []
terminated (line ∷ lines) = line ++ (b'\n' ∷ terminated lines)

-- A text whose delimiter line was found, `pos` bytes into a longer one, after lines that are none.
pub record Found (test : Text → Bool) (text : Text) (pos stop : ℕ) (next : Option ℕ) : Type 0 where
  pub yaml : Text
  pub earlier : List Text
  pub lines : yaml ≡ terminated earlier
  pub whole_lines : All (Lacks is_newline) earlier
  pub plain : All (Plain test) earlier
  pub line : Text
  pub after : Text
  pub whole : text ≡ yaml ++ (line ++ after)
  pub before : pos + len yaml ≡ stop
  pub delimiter : test line ≡ true
  pub whole_line : Lacks is_newline line
  pub ended : Ended (stop + len line) next after

module _ (test : Text → Bool) where
  first_line :
      (pos : ℕ) (line : Text)
      → test line ≡ true
      → Lacks is_newline line
      → (after : Text) (next : Option ℕ) → Ended (pos + len line) next after
      → Found test (line ++ after) pos pos next
  first_line pos line h lacks after next e = record {
    yaml = [];
    earlier = [];
    lines = refl;
    whole_lines = tt;
    plain = tt;
    line = line;
    after = after;
    whole = refl;
    before = omega arith;
    delimiter = h;
    whole_line = lacks;
    ended = e;
  }

  later_line :
      (pos : ℕ) (line rest : Text) {stop : ℕ} {next : Option ℕ}
      → Plain test line
      → Lacks is_newline line
      → Found test rest (pos + len line + 1) stop next
      → Found test (line ++ (b'\n' ∷ rest)) pos stop next
  later_line pos line rest h lacks f = record {
    yaml = line ++ (b'\n' ∷ f.yaml);
    earlier = line ∷ f.earlier;
    lines = ap (λ t. line ++ (b'\n' ∷ t)) f.lines;
    whole_lines = (lacks, f.whole_lines);
    plain = (h, f.plain);
    line = f.line;
    after = f.after;
    whole =
        ap (λ t. line ++ (b'\n' ∷ t)) f.whole
        ∙ sym (append_assoc line (b'\n' ∷ f.yaml) (f.line ++ f.after));
    before = omega (arith, f.before, len-append line (b'\n' ∷ f.yaml));
    delimiter = f.delimiter;
    whole_line = f.whole_line;
    ended = f.ended;
  }

  pub closing-Found :
      (pos : ℕ) (ls : List Text) {stop : ℕ} {next : Option ℕ}
      → All (Lacks is_newline) ls
      → closing test pos ls ≡ some (stop, next)
      → Found test (join (b'\n' ∷ []) ls) pos stop next
  unfolding closing
  closing-Found pos [] _ h = cc
  closing-Found pos (line ∷ []) (lacks, _) h = elim (Bool-cases (test line)) [
    | inl e ↦
        let same = some-eq (rw e at h) in
        subst (λ p. Found test line pos p.0 p.1) same
          (subst (λ t. Found test t pos pos none) (append-nil line)
            (first_line pos line e lacks [] none (inl (refl, refl))))
    | inr e ↦ cc (rw e at h)
  ]
  closing-Found pos (line ∷ v ∷ more) (lacks, all) h = elim (Bool-cases (test line)) [
    | inl e ↦
        subst (λ p. Found test (line ++ (b'\n' ∷ join (b'\n' ∷ []) (v ∷ more))) pos p.0 p.1)
          (some-eq (rw e at h))
          (first_line pos line e lacks (b'\n' ∷ join (b'\n' ∷ []) (v ∷ more))
            (some (pos + len line + 1)) (inr (join (b'\n' ∷ []) (v ∷ more), refl, refl)))
    | inr e ↦
        later_line pos line (join (b'\n' ∷ []) (v ∷ more)) e lacks
          (closing-Found (pos + len line + 1) (v ∷ more) all (rw e at h))
  ]

  -- What the loop gives when it meets a delimiter line after lines that are none.
  pub closing-first :
      (pos : ℕ) (l : Text) (ls : List Text) (line body : Text) (more : List Text)
      → All (Plain test) (l ∷ ls)
      → test line ≡ true
      → closing test pos (l ∷ (ls ++ (line ∷ body ∷ more))) ≡ (
          let stop = pos + len (join (b'\n' ∷ []) (l ∷ ls)) + 1 in
          some (stop, some (stop + len line + 1)))
  unfolding closing
  closing-first pos l [] line body more (hl, _) h = rw (hl, h) refl
  closing-first pos l (v ∷ ls) line body more (hl, hs) h =
      let rest = closing-first (pos + len l + 1) v ls line body more hs h in
      let same : pos + len l + 1 + len (join (b'\n' ∷ []) (v ∷ ls))
          ≡ pos + len (join (b'\n' ∷ []) (l ∷ v ∷ ls)) =
        omega (arith, len-append l (b'\n' ∷ join (b'\n' ∷ []) (v ∷ ls))) in
      rw (hl, rest, same) refl
