-- ===== src/Frontmatter/Location.antt =====
-- Where `extract_raw_frontmatter` (src/vault/frontmatter.rs) finds the frontmatter and the body.
use obsidian_mcp.Common.{
  ◌≡◌, refl, sym, ap, ◌∙◌, subst, ◌⊎◌, inl, inr, ℕ, ◌+◌, true, Option, none, some, [], ◌++◌, arith,
  Bool-cases, Option-cases, append_assoc, append-nil, some-eq, and_then,
}
use obsidian_mcp.Text.{Text, codes, len, split, starts_with}
use obsidian_mcp.Text.Compare.{starts_with_sound}
use obsidian_mcp.Text.Offsets.{len-append, slice_cut}
use obsidian_mcp.Text.Split.{join-split, split-Lacks}
use obsidian_mcp.Source.{sliced}
use obsidian_mcp.Frontmatter.{
  is_delimiter, is_newline, closing, after_open, extract_raw_frontmatter, get_body, located,
}
use obsidian_mcp.Frontmatter.Scanning.{Found, closing-Found}

-- A slice between two parts, and one up to the end.
pub sliced_part :
    {s : Text} {a b : ℕ} (u v w : Text)
    → s ≡ u ++ (v ++ w)
    → len u ≡ a
    → len (u ++ v) ≡ b
    → sliced s a b ≡ v
sliced_part u v w e ea eb =
    (λ i. sliced (e i) (sym ea i) (sym eb i))
    ∙ ap (λ o. elim o [ none ↦ [] | some t ↦ t ]) (slice_cut u v w)

pub sliced_rest : {s : Text} {a : ℕ} (u v : Text) → s ≡ u ++ v → len u ≡ a → sliced s a (len s) ≡ v
sliced_rest u v e ea =
    sliced_part u v [] (e ∙ ap (λ t. u ++ t) (sym (append-nil v))) ea (ap len (sym e))

pub four_parts : (a b c d e : Text) → a ++ (b ++ (c ++ (d ++ e))) ≡ (a ++ (b ++ (c ++ d))) ++ e
four_parts a b c d e = simp append_assoc

-- An opening line.
abbrev pub Opening : Text → Type 0
Opening t = (t ≡ codes "---\n") ⊎ (t ≡ codes "---\r\n")

abbrev Opened : Text → ℕ → Type 0
Opened content n =
    (opening : Text) × (rest : Text) × Opening opening
    × (content ≡ opening ++ rest)
    × (len opening ≡ n)

after_open-Opened : (content : Text) (n : ℕ) → after_open content ≡ some n → Opened content n
after_open-Opened content n h = elim (Bool-cases (starts_with (codes "---\n") content)) [
  | inl e ↦
      let (rest, whole) = starts_with_sound (codes "---\n") content e in
      (codes "---\n", rest, inl refl, whole, some-eq (rw e at h))
  | inr e ↦ elim (Bool-cases (starts_with (codes "---\r\n") content)) [
    | inl k ↦
        let (rest, whole) = starts_with_sound (codes "---\r\n") content k in
        (codes "---\r\n", rest, inr refl, whole, some-eq (rw (e, k) at h))
    | inr k ↦ cc (rw (e, k) at h)
  ]
]

-- A note in four parts: the opening line, the YAML text, the closing line and the body.
pub record Located (content yaml : Text) (body_start : ℕ) : Type 0 where
  pub opening : Text
  pub line : Text
  pub ending : Text
  pub opened : Opening opening
  pub delimiter : is_delimiter line ≡ true
  pub ended : (ending ≡ codes "\n") ⊎ ((ending ≡ []) × (get_body content ≡ []))
  pub whole : content ≡ opening ++ (yaml ++ (line ++ (ending ++ get_body content)))
  pub measure : len (opening ++ (yaml ++ (line ++ ending))) ≡ body_start

pub len_parts : (a b c d : Text) → len (a ++ (b ++ (c ++ d))) ≡ len a + len b + len c + len d
len_parts a b c d =
    omega (arith, len-append a (b ++ (c ++ d)), len-append b (c ++ d), len-append c d)

pub get_body-at :
    (content yaml : Text) (n : ℕ)
    → extract_raw_frontmatter content ≡ some (yaml, n)
    → get_body content ≡ sliced content n (len content)
unfolding get_body
get_body-at content yaml n h = rw h refl

-- The parts of a note from what the loop finds.
parts :
    (content opening rest : Text) (start stop : ℕ) (next : Option ℕ) (yaml : Text) (n : ℕ)
    → Opening opening
    → content ≡ opening ++ rest
    → len opening ≡ start
    → Found is_delimiter rest 0 stop next
    → located content start (stop, next) ≡ (yaml, n)
    → extract_raw_frontmatter content ≡ some (yaml, n)
    → Located content yaml n
parts content opening rest start stop next yaml n o whole measure f found h =
    let all : content ≡ opening ++ (f.yaml ++ (f.line ++ f.after)) =
      whole ∙ ap (λ t. opening ++ t) f.whole in
    let text : sliced content start (start + stop) ≡ f.yaml =
      sliced_part opening f.yaml (f.line ++ f.after) all measure
        (omega (arith, len-append opening f.yaml, f.before, measure)) in
    let body : get_body content ≡ sliced content n (len content) = get_body-at content yaml n h in
    elim f.ended [
      | inl (en, ea) ↦
          let known : located content start (stop, none) ≡ (yaml, n) =
            subst (λ o. located content start (stop, o) ≡ (yaml, n)) en found in
          let ty : f.yaml ≡ yaml = sym text ∙ ap (λ p. p.0) known in
          let tn : len content ≡ n = ap (λ p. p.1) known in
          let eb : get_body content ≡ [] =
            body ∙ sliced_rest content [] (sym (append-nil content)) tn in
          let flat : content ≡ opening ++ (yaml ++ (f.line ++ ([] ++ []))) = cc (all, ty, ea) in
          record {
            opening = opening;
            line = f.line;
            ending = [];
            opened = o;
            delimiter = f.delimiter;
            ended = inr (refl, eb);
            whole = subst (λ t. content ≡ opening ++ (yaml ++ (f.line ++ ([] ++ t)))) (sym eb) flat;
            measure = ap len (sym flat) ∙ tn;
          }
      | inr (b, en, ea) ↦
          let known : located content start (stop, some (stop + len f.line + 1)) ≡ (yaml, n) =
            subst (λ o. located content start (stop, o) ≡ (yaml, n)) en found in
          let ty : f.yaml ≡ yaml = sym text ∙ ap (λ p. p.0) known in
          let tn : start + (stop + len f.line + 1) ≡ n = ap (λ p. p.1) known in
          let bytes : len (opening ++ (yaml ++ (f.line ++ codes "\n"))) ≡ n =
            omega (
              arith,
              len_parts opening yaml f.line (codes "\n"),
              tn,
              measure,
              f.before,
              ap len ty,
            ) in
          let flat : content ≡ opening ++ (yaml ++ (f.line ++ (codes "\n" ++ b))) =
            cc (all, ty, ea) in
          let eb : get_body content ≡ b =
            body
            ∙ sliced_rest (opening ++ (yaml ++ (f.line ++ codes "\n"))) b
                (flat ∙ four_parts opening yaml f.line (codes "\n") b) bytes in
          record {
            opening = opening;
            line = f.line;
            ending = codes "\n";
            opened = o;
            delimiter = f.delimiter;
            ended = inl refl;
            whole =
                subst (λ t. content ≡ opening ++ (yaml ++ (f.line ++ (codes "\n" ++ t)))) (sym eb)
                  flat;
            measure = bytes;
          }
    ]

-- Where the frontmatter is found, the note is an opening line, the YAML text, a closing line and the body
-- that get_body gives, and the offset is that of the body.
pub extract_raw_frontmatter-Located :
    (content : Text) {yaml : Text} {body_start : ℕ}
    → extract_raw_frontmatter content ≡ some (yaml, body_start)
    → Located content yaml body_start
unfolding extract_raw_frontmatter
extract_raw_frontmatter-Located content {yaml} {body_start} h =
    elim (Option-cases (after_open content)) [
      | inl e ↦ cc (rw e at h)
      | inr (start, e) ↦
          let (opening, rest, o, whole, measure) = after_open-Opened content start e in
          let cut : sliced content start (len content) ≡ rest =
            sliced_rest opening rest whole measure in
          let found : and_then (closing is_delimiter 0 (split is_newline rest))
                (λ f. some (located content start f))
              ≡ some (yaml, body_start) =
            rw (e, cut) at h in
          elim (Option-cases (closing is_delimiter 0 (split is_newline rest))) [
            | inl k ↦ cc (rw k at found)
            | inr ((stop, next), k) ↦
                let lines =
                  closing-Found is_delimiter 0 (split is_newline rest) (split-Lacks is_newline rest)
                    k in
                parts content opening rest start stop next yaml body_start o whole measure
                  (subst (λ t. Found is_delimiter t 0 stop next) (join-split b'\n' rest) lines)
                  (some-eq (rw k at found)) h
          ]
    ]
