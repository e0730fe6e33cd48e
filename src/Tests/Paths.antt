-- ===== src/Tests/Paths.antt =====
-- Runs of src/vault/path.rs.
use obsidian_mcp.Common.{◌≡◌, refl, ◌↔◌, [], ◌∷◌, ◌++◌}
use obsidian_mcp.Text.{codes, join}
use obsidian_mcp.Errors.{ok, err, outside_vault}
use obsidian_mcp.Path.{
  slash, parse, entry, normalize_relative, logical_join, logical_file_stem, logical_extension,
}
use obsidian_mcp.Path.Names.{IsName}
use obsidian_mcp.Path.Parsing.{Parsed, parse-Parsed}
use obsidian_mcp.Path.Normal.{parse_idem}
use obsidian_mcp.Path.Escape.{Escapes, pieces, parse_outside_iff}
use obsidian_mcp.Path.Portable.{normalize_relative-eq-parse, entry_iff, logical_join-names}
use mathlib.Core.Option.{some, none}

parse_mixed : parse (codes "a\\./b//../c") ≡ ok (codes "a/c")
unfolding parse
parse_mixed = refl

parse_climb : parse (codes "a/../../b") ≡ err (outside_vault (codes "a/../../b"))
unfolding parse
parse_climb = refl

stem_of_archive : logical_file_stem (codes "a/b.tar.gz") ≡ some (codes "b.tar")
unfolding logical_file_stem
stem_of_archive = refl

extension_of_hidden : logical_extension (codes "a/.hidden") ≡ none
unfolding logical_extension
extension_of_hidden = refl

parse-Parsed_example : Parsed (codes "a\\./b//../c") (codes "a/c")
parse-Parsed_example = parse-Parsed (codes "a\\./b//../c") parse_mixed

parse_idem_example : parse (codes "a/c") ≡ ok (codes "a/c")
parse_idem_example = parse_idem (codes "a\\./b//../c") parse_mixed

parse_outside_iff_example :
    (parse (codes "a/../../b") ≡ err (outside_vault (codes "a/../../b")))
    ↔ Escapes 0 (pieces (codes "a/../../b"))
parse_outside_iff_example = parse_outside_iff (codes "a/../../b") refl refl

normalize_relative-eq-parse_example :
    normalize_relative (codes "./a/b/..") ≡ parse (codes "./a/b/..")
normalize_relative-eq-parse_example = normalize_relative-eq-parse (codes "./a/b/..") refl

entry_iff_example : (entry (codes "note.md") ≡ ok (codes "note.md")) ↔ IsName (codes "note.md")
entry_iff_example = entry_iff (codes "note.md")

parse_a : parse (codes "a/") ≡ ok (codes "a")
unfolding parse
parse_a = refl

logical_join-names_example :
    logical_join (codes "a\\./b//../c") (codes "a/")
    ≡ ok (
        join (slash ∷ []) (
          (parse-Parsed (codes "a\\./b//../c") parse_mixed).names
          ++ (parse-Parsed (codes "a/") parse_a).names))
logical_join-names_example =
    logical_join-names (codes "a\\./b//../c") (codes "a/") parse_mixed parse_a
