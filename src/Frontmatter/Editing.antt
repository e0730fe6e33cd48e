-- ===== src/Frontmatter/Editing.antt =====
-- Setting and removing a field (src/vault/frontmatter.rs).
use obsidian_mcp.Common.{◌≡◌, refl, ◌∙◌, true, false, some}
use obsidian_mcp.Text.{Text}
use obsidian_mcp.Errors.{Result, ok, err, other, ◌>>=◌, >>=-inversion}
use obsidian_mcp.Json.{Json, Fields, object, is_blank, has, set, unset}
use obsidian_mcp.Json.Laws.{set-nonempty}
use obsidian_mcp.Frontmatter.{
  Yaml, rebuild_content, parse_frontmatter, get_body, set_frontmatter_field,
  remove_frontmatter_field, or_new, as_object, without,
}
use obsidian_mcp.Frontmatter.Rebuilding.{
  Writes, get_body-rebuild_content, parse_frontmatter-rebuild_content,
}

-- The fields of a note, none if it has no frontmatter.
unfoldable pub fields_of : Yaml → Text → Result Fields
fields_of yaml content =
    parse_frontmatter yaml content >>= λ frontmatter. as_object (or_new frontmatter)

set_frontmatter_field-fields :
    (yaml : Yaml) (content key : Text) (value : Json) {m : Fields}
    → fields_of yaml content ≡ ok m
    → set_frontmatter_field yaml content key value
      ≡ ok (rebuild_content yaml (object (set key value m)) (get_body content))
unfolding fields_of set_frontmatter_field
set_frontmatter_field-fields yaml content key value h =
    let known = >>=-inversion (λ o. as_object (or_new o)) (parse_frontmatter yaml content) h in
    rw (known.begun, known.ended) refl

-- Setting a field of a note whose frontmatter can be read succeeds, when the YAML package can write the
-- new fields: the new note has the old fields with this one set, and the old body.
pub set_frontmatter_field-parse_frontmatter :
    (yaml : Yaml) (content key : Text) (value : Json) {m : Fields}
    → fields_of yaml content ≡ ok m
    → Writes yaml (set key value m)
    → (out : Text) × (set_frontmatter_field yaml content key value ≡ ok out)
      × (parse_frontmatter yaml out ≡ ok (some (object (set key value m))))
      × (get_body out ≡ get_body content)
set_frontmatter_field-parse_frontmatter yaml content key value {m} h w =
    let body = get_body content in
    let blank = set-nonempty key value m in
    (
      rebuild_content yaml (object (set key value m)) body,
      set_frontmatter_field-fields yaml content key value h,
      parse_frontmatter-rebuild_content w body blank,
      get_body-rebuild_content w body blank,
    )

-- A note whose frontmatter cannot be read is refused by both operations, with the error of reading.
pub edit_unreadable :
    (yaml : Yaml) (content key : Text) (value : Json)
    → parse_frontmatter yaml content ≡ err other
    → (set_frontmatter_field yaml content key value ≡ err other)
      × (remove_frontmatter_field yaml content key ≡ err other)
unfolding set_frontmatter_field remove_frontmatter_field
edit_unreadable yaml content key value h = (rw h refl, rw h refl)

module _ (yaml : Yaml) (content key : Text) {m : Fields}
    (h : parse_frontmatter yaml content ≡ ok (some (object m))) where
  remove_frontmatter_field-without :
      remove_frontmatter_field yaml content key ≡ ok (without yaml content key m)
  unfolding remove_frontmatter_field
  remove_frontmatter_field-without = rw h refl

  -- Removing a field that is there and not the last one succeeds, when the YAML package can write the
  -- other fields: the new note has the other fields and the old body.
  pub remove_frontmatter_field-parse_frontmatter :
      has key m ≡ true
      → is_blank (unset key m) ≡ false
      → Writes yaml (unset key m)
      → (out : Text) × (remove_frontmatter_field yaml content key ≡ ok out)
        × (parse_frontmatter yaml out ≡ ok (some (object (unset key m))))
        × (get_body out ≡ get_body content)
  remove_frontmatter_field-parse_frontmatter there more w =
      let body = get_body content in
      (
        rebuild_content yaml (object (unset key m)) body,
        remove_frontmatter_field-without ∙ rw (there, more) refl,
        parse_frontmatter-rebuild_content w body more,
        get_body-rebuild_content w body more,
      )

  pub remove_last :
      has key m ≡ true
      → is_blank (unset key m) ≡ true
      → remove_frontmatter_field yaml content key ≡ ok (get_body content)
  remove_last there last = remove_frontmatter_field-without ∙ rw (there, last) refl

  pub remove_absent : has key m ≡ false → remove_frontmatter_field yaml content key ≡ ok content
  remove_absent absent = remove_frontmatter_field-without ∙ rw absent refl
