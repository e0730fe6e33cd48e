-- ===== src/Tests/Policies.antt =====
-- Runs of src/vault/exclude.rs, with a glob package that refuses patterns with `[`.
use obsidian_mcp.Common.{◌≡◌, refl, false, not, some, List, [], ◌∷◌, any}
use obsidian_mcp.Text.{Text, codes, text_eq, contains}
use obsidian_mcp.Errors.{err, invalid_path}
use obsidian_mcp.Exclude.{ExcludeSet}
use obsidian_mcp.Exclude.Rules.{
  Globset, from_sources, stands_for, from_sources-patterns, parse_ignore_lines,
}

abbrev globset : Globset
globset = record {
  is_glob = λ p. not (contains (codes "[") p);
  build = λ globs. some (λ path. any (text_eq path) globs);
}

abbrev rules : List Text
rules = codes " Drafts/ " ∷ codes "" ∷ codes "Archive/**" ∷ codes "Drafts/**" ∷ []

abbrev policy : ExcludeSet
policy = record {
  set = λ path. any (text_eq path) (codes "Drafts/**" ∷ codes "Archive/**" ∷ []);
  patterns = codes "Archive/**" ∷ codes "Drafts/**" ∷ [];
  private_memory = false;
}

ignore_lines : parse_ignore_lines (codes "# c\n\n a/ \nb") ≡ codes "a/" ∷ codes "b" ∷ []
unfolding parse_ignore_lines
ignore_lines = refl

bad_rule : from_sources globset false (codes "[x" ∷ []) ≡ err invalid_path
unfolding from_sources
bad_rule = refl

from_sources-patterns_example :
    any (text_eq (codes "Drafts/**")) policy.patterns ≡ any (stands_for (codes "Drafts/**")) rules
unfolding from_sources
from_sources-patterns_example =
    from_sources-patterns globset (codes "Drafts/**") false rules {e = policy} refl
