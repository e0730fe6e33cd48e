-- ===== src/Patch/Edits.antt =====
-- What `patch_frontmatter` (src/vault/patch.rs) keeps and what it changes.
use obsidian_mcp.Common.{
  ◌≡◌, refl, sym, ap, ◌∙◌, subst, ◌⊎◌, inl, inr, true, false, Option, none, some, [], ◌∷◌, ◌++◌,
  arith, Bool-cases, Option-cases, append_assoc, append-nil, ◌||◌, ◌==◌, if◌then◌else◌,
}
use obsidian_mcp.Text.{
  Text, codes, text_eq, len, trim, is_empty, starts_with, ends_with, strip_prefix,
}
use obsidian_mcp.Errors.{
  ok, other, frontmatter_parse, ok_or-inversion, patch_target_not_found, ◌>>=◌, ok_or,
  >>=-inversion, ok-injective,
}
use obsidian_mcp.Models.{PatchOperation, append, prepend, replace, PatchRequest}
use obsidian_mcp.Source.{sliced}
use obsidian_mcp.Frontmatter.Location.{sliced_part, sliced_rest, four_parts}
use obsidian_mcp.Patch.Fields.{
  YamlPackage, YamlValue, FrontmatterRange, frontmatter_boundaries, patch_frontmatter, patch_range,
  patched_mapping, read_mapping, without_marker, reassembled, parse_yaml_value, appended, prepended,
}
use obsidian_mcp.Patch.Boundaries.{Bounded, frontmatter_boundaries-Bounded}
use obsidian_mcp.Patch.{ensure_trailing_newline}

-- A printed text and what is left of it without its document marker, if it has one.
abbrev pub Unmarked : Text → Text → Type 0
Unmarked text t =
    (text ≡ codes "---\n" ++ t)
    ⊎ (text ≡ codes "---\r\n" ++ t)
    ⊎ ((starts_with (codes "---\n") text ≡ false)
        × (starts_with (codes "---\r\n") text ≡ false)
        × (text ≡ t))

strip_prefix_sound : (p s : Text) {t : Text} → strip_prefix p s ≡ some t → s ≡ p ++ t
strip_prefix_sound [] s h = ground (arith, h)
strip_prefix_sound (c ∷ p) [] h = cc
strip_prefix_sound (c ∷ p) (d ∷ s) h = elim (Bool-cases (c == d)) [
  | inl e ↦ ground (arith, e, strip_prefix_sound p s (rw e at h))
  | inr e ↦ cc (rw e at h)
]

strip_prefix-none : (p s : Text) → strip_prefix p s ≡ none → starts_with p s ≡ false
strip_prefix-none [] s h = cc
strip_prefix-none (c ∷ p) [] h = refl
strip_prefix-none (c ∷ p) (d ∷ s) h = ground (arith, strip_prefix-none p s)

without_marker-Unmarked : (text : Text) → Unmarked text (without_marker text)
without_marker-Unmarked text = elim (Option-cases (strip_prefix (codes "---\n") text)) [
  | inr (t, e) ↦ rw e (inl (strip_prefix_sound (codes "---\n") text e))
  | inl e ↦ elim (Option-cases (strip_prefix (codes "---\r\n") text)) [
    | inr (t, k) ↦ rw (e, k) (inr (inl (strip_prefix_sound (codes "---\r\n") text k)))
    | inl k ↦
        rw (e, k)
          (inr (
            inr (
              strip_prefix-none (codes "---\n") text e,
              strip_prefix-none (codes "---\r\n") text k,
              refl,
            )))
  ]
]

-- What a patch relies on of the package's mappings: `get` reads a field, and `insert` and `remove`
-- change the one field that they name.
pub record MappingLaws {Mapping : Type 0} (yaml : YamlPackage Mapping)
    (get : Text → Mapping → Option YamlValue) : Type 0 where
  pub get_insert :
      (key j : Text) (v : YamlValue) (m : Mapping)
      → get j (yaml.insert key v m) ≡ (if text_eq key j then some v else get j m)
  pub removed : (key : Text) (m : Mapping) → (yaml.remove key m).0 ≡ get key m
  pub get_rest :
      (key j : Text) (m : Mapping) → text_eq key j ≡ false → get j (yaml.remove key m).1 ≡ get j m

-- The line end that a text needs before a next line.
abbrev pub line_end : Text → Text
line_end t = if is_empty t || ends_with (codes "\n") t then [] else codes "\n"

ensure_trailing_newline-line_end : (t : Text) → ensure_trailing_newline t ≡ t ++ line_end t
ensure_trailing_newline-line_end t = elim (Bool-cases (is_empty t)) [
  | inl e ↦ rw e (sym (append-nil t))
  | inr e ↦ elim (Bool-cases (ends_with (codes "\n") t)) [
    | inl k ↦ rw (e, k) (sym (append-nil t))
    | inr k ↦ rw (e, k) refl
  ]
]

reassembled-parts :
    (text body : Text)
    → reassembled text body
      ≡ codes "---\n"
        ++ (without_marker text ++ (line_end (without_marker text) ++ (codes "---\n" ++ body)))
reassembled-parts text body =
    let kept = without_marker text in
    ap (λ t. codes "---\n" ++ (t ++ (codes "---\n" ++ body)))
      (ensure_trailing_newline-line_end kept)
    ∙ ap (λ t. codes "---\n" ++ t) (append_assoc kept (line_end kept) (codes "---\n" ++ body))

module _ {Mapping : Type 0} (yaml : YamlPackage Mapping)
    (get : Text → Mapping → Option YamlValue) where
  -- The value of the field after a patch, from its value before it.
  abbrev pub new_value : PatchOperation → Text → Option YamlValue → YamlValue
  new_value replace content current = parse_yaml_value yaml content
  new_value append content current = appended yaml content current
  new_value prepend content current = prepended yaml content current

  -- The mapping that a YAML text holds: a blank one holds the empty mapping.
  abbrev pub Holds : Text → Mapping → Type 0
  Holds text m =
      ((is_empty (trim text) ≡ true) × (m ≡ yaml.new))
      ⊎ ((is_empty (trim text) ≡ false) × (yaml.from_str text ≡ some m))

  read_mapping-Holds :
      (path text : Text) {m : Mapping} → read_mapping yaml path text ≡ ok m → Holds text m
  unfolding read_mapping
  read_mapping-Holds path text h = elim (Bool-cases (is_empty (trim text))) [
    | inl e ↦ inl (e, sym (ok-injective (rw e at h)))
    | inr e ↦ inr (e, ok_or-inversion (frontmatter_parse path) (yaml.from_str text) (rw e at h))
  ]

  -- One field has a new value, and the others have their old ones.
  abbrev pub Changed : PatchRequest → Mapping → Mapping → Type 0
  Changed request before after =
      (j : Text)
      → get j after ≡ (
          if text_eq request.target j
          then some (new_value request.operation request.content (get request.target before))
          else get j before)

  -- A field that is taken out and put back with a value made from its old one.
  put_back :
      MappingLaws yaml get
      → (f : Option YamlValue → YamlValue) (key : Text) (m : Mapping) (j : Text)
      → (let (current, rest) = yaml.remove key m in get j (yaml.insert key (f current) rest))
        ≡ (if text_eq key j then some (f (get key m)) else get j m)
  put_back laws f key m j = elim (Bool-cases (text_eq key j)) [
    | inl e ↦
        laws.get_insert key j (f (yaml.remove key m).0) (yaml.remove key m).1
        ∙ rw e (ap (λ o. some (f o)) (laws.removed key m))
    | inr e ↦
        laws.get_insert key j (f (yaml.remove key m).0) (yaml.remove key m).1
        ∙ rw e (laws.get_rest key j m e)
  ]

  patched_mapping-get :
      MappingLaws yaml get
      → (operation : PatchOperation) (key content : Text) (m : Mapping) (j : Text)
      → get j (patched_mapping yaml operation key content m)
        ≡ (if text_eq key j then some (new_value operation content (get key m)) else get j m)
  unfolding patched_mapping
  patched_mapping-get laws replace key content m j =
      laws.get_insert key j (parse_yaml_value yaml content) m
  patched_mapping-get laws append key content m j = put_back laws (appended yaml content) key m j
  patched_mapping-get laws prepend key content m j = put_back laws (prepended yaml content) key m j

  -- A note whose parts are `parts` and whose frontmatter has the field patched.
  pub record Edited (content : Text) (request : PatchRequest) (out : Text) : Type 0 where
    pub range : FrontmatterRange
    pub parts : Bounded content range
    pub before : Mapping
    pub after : Mapping
    pub holds : Holds parts.yaml before
    pub changed : Changed request before after
    pub text : Text
    pub printed : yaml.to_string after ≡ some text
    pub kept : Text
    pub unmarked : Unmarked text kept
    pub result : out ≡ codes "---\n" ++ (kept ++ (line_end kept ++ (codes "---\n" ++ parts.body)))

  -- Under the laws of the package's mappings, a patch of a frontmatter field that succeeds is about a note
  -- that begins with a boundary line and has another one: it reads the mapping from the lines up to the
  -- first such line, gives the one field its new value, and puts the printed mapping, less its document
  -- marker and with a line end where it is not empty and has none, between two `---` lines before what
  -- followed that line.
  pub patch_frontmatter-Edited :
      MappingLaws yaml get
      → (content : Text) (request : PatchRequest) (path : Text) {out : Text}
      → patch_frontmatter yaml content request path ≡ ok out
      → Edited content request out
  unfolding patch_frontmatter patch_range
  patch_frontmatter-Edited laws content request path {out} h =
      let first =
        >>=-inversion (patch_range yaml content request path)
          (ok_or (patch_target_not_found path (codes "frontmatter") request.target)
            (frontmatter_boundaries content))
          h in
      let r = first.middle in
      let found =
        ok_or-inversion (patch_target_not_found path (codes "frontmatter") request.target)
          (frontmatter_boundaries content) first.begun in
      let b = frontmatter_boundaries-Bounded content found in
      let yaml_text : sliced content r.yaml_start r.yaml_end ≡ b.yaml =
        sliced_part b.opening b.yaml (b.line ++ (b.ending ++ b.body)) b.whole b.starts b.ends in
      let body : sliced content r.body_start (len content) ≡ b.body =
        sliced_rest (b.opening ++ (b.yaml ++ (b.line ++ b.ending))) b.body
          (b.whole ∙ four_parts b.opening b.yaml b.line b.ending b.body) b.resumes in
      let second =
        >>=-inversion
          (λ mapping.
            ok_or other (
              yaml.to_string
                (patched_mapping yaml request.operation request.target request.content mapping))
            >>= λ text. ok (reassembled text (sliced content r.body_start (len content))))
          (read_mapping yaml path (sliced content r.yaml_start r.yaml_end)) first.ended in
      let after =
        patched_mapping yaml request.operation request.target request.content second.middle in
      let third =
        >>=-inversion (λ text. ok (reassembled text (sliced content r.body_start (len content))))
          (ok_or other (yaml.to_string after)) second.ended in
      record {
        range = r;
        parts = b;
        before = second.middle;
        after = after;
        holds =
            subst (λ t. Holds t second.middle) yaml_text
              (read_mapping-Holds path (sliced content r.yaml_start r.yaml_end) second.begun);
        changed =
            patched_mapping-get laws request.operation request.target request.content second.middle;
        text = third.middle;
        printed = ok_or-inversion other (yaml.to_string after) third.begun;
        kept = without_marker third.middle;
        unmarked = without_marker-Unmarked third.middle;
        result =
            sym (ok-injective third.ended)
            ∙ ap (λ t. reassembled third.middle t) body
            ∙ reassembled-parts third.middle b.body;
      }
