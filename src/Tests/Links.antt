-- ===== src/Tests/Links.antt =====
-- Runs of src/vault/wikilink.rs, with no Unicode normalisation and the lower case of ASCII.
use obsidian_mcp.Common.{◌≡◌, ◌⊎◌, inl, arith, refl, none, some, List, [], ◌∷◌}
use obsidian_mcp.Text.{Text, codes, to_ascii_lowercase}
use obsidian_mcp.Wikilink.{
  LinkResolver, normalize_target, path_key, stem_key, single, build_link_resolver, remove_path,
  resolve, resolve_candidates, add_path, empty, rename_path,
}
use obsidian_mcp.Wikilink.Catalog.{Stands, build_link_resolver-Stands, rename_path-Stands}
use obsidian_mcp.Wikilink.Resolution.{meant, resolve-build, resolve-remove, resolve-candidates}
use obsidian_mcp.Wikilink.Collision.{IsRegistered, resolve-remove_collision}

abbrev same : Text → Text
same s = s

abbrev notes : List Text
notes = codes "notes/Hello.md" ∷ codes "archive/hello.md" ∷ codes "b.md" ∷ []

resolve_ambiguous : meant same to_ascii_lowercase (codes "HELLO") notes ≡ none
unfolding normalize_target stem_key
resolve_ambiguous = refl

resolve-build_example :
    resolve same to_ascii_lowercase
      (codes "archive\\HELLO")
      (build_link_resolver same to_ascii_lowercase notes)
    ≡ some (codes "archive/hello.md")
unfolding normalize_target path_key
resolve-build_example = resolve-build same to_ascii_lowercase notes (codes "archive\\HELLO")

resolve-remove_example :
    resolve same to_ascii_lowercase (codes "hello") (
      remove_path same to_ascii_lowercase
        (codes "archive/hello.md")
        (build_link_resolver same to_ascii_lowercase notes))
    ≡ some (codes "notes/Hello.md")
unfolding normalize_target path_key stem_key
resolve-remove_example =
    resolve-remove same to_ascii_lowercase notes (codes "archive/hello.md") (codes "hello")
      ((λ e. absurd (ground arith)), ((λ e. refl), ((λ e. absurd (ground arith)), tt)))

resolve-candidates_example :
    resolve same to_ascii_lowercase
      (codes "hello")
      (build_link_resolver same to_ascii_lowercase notes)
    ≡ single (
        resolve_candidates same to_ascii_lowercase
          (codes "hello")
          (build_link_resolver same to_ascii_lowercase notes))
resolve-candidates_example =
    resolve-candidates same to_ascii_lowercase (codes "hello")
      (build_link_resolver same to_ascii_lowercase notes)

rename_path-Stands_example :
    Stands same to_ascii_lowercase
      (rename_path same to_ascii_lowercase
        (codes "b.md")
        (codes "c.md")
        (build_link_resolver same to_ascii_lowercase (codes "b.md" ∷ [])))
      (codes "c.md" ∷ [])
rename_path-Stands_example =
    rename_path-Stands same to_ascii_lowercase (codes "b.md") (codes "c.md") ((λ e. refl), tt)
      (build_link_resolver-Stands same to_ascii_lowercase (codes "b.md" ∷ []))

abbrev crowded : LinkResolver
crowded =
    add_path same to_ascii_lowercase (codes "n/a.md")
      (add_path same to_ascii_lowercase (codes "n/A.md") empty)

resolve-remove_collision_example :
    ((resolve same to_ascii_lowercase (codes "n/a") crowded ≡ some (codes "n/a.md"))
      ⊎ (resolve same to_ascii_lowercase (codes "n/a") crowded ≡ some (codes "n/A.md")))
    × (resolve same to_ascii_lowercase
          (codes "n/a")
          (remove_path same to_ascii_lowercase (codes "n/A.md") crowded)
        ≡ none)
    × IsRegistered same to_ascii_lowercase
        (codes "n/a.md")
        (remove_path same to_ascii_lowercase (codes "n/A.md") crowded)
unfolding normalize_target path_key
resolve-remove_collision_example =
    resolve-remove_collision same to_ascii_lowercase empty crowded (codes "n/a.md") (codes "n/A.md")
      (codes "n/a") (inl refl) refl refl refl refl
