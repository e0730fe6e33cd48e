-- ===== src/Exclude.antt =====
-- Which paths are visible and which notes are excluded (src/vault/exclude.rs). The compiled glob set
-- of the third-party package is the test that it makes.
pub mod Rules
use obsidian_mcp.Common.{Bool, false, not, ◌||◌, List, all, if◌then◌else◌}
use obsidian_mcp.Text.{Text, codes, split, starts_with, is_empty}
use obsidian_mcp.Path.{is_separator}

-- `is_visible_path`
unfoldable pub is_visible_path : Text → Bool
is_visible_path path = all (λ name. not (starts_with (codes ".") name)) (split is_separator path)

pub record ExcludeSet : Type 0 where
  pub set : Text → Bool
  pub patterns : List Text
  pub private_memory : Bool

-- `ExcludeSet::is_excluded`
unfoldable pub is_excluded : ExcludeSet → Text → Bool
is_excluded e relative_path = if is_empty e.patterns then false else e.set relative_path

-- `ExcludeSet::allows_source`, over `private_source_eligible`
unfoldable pub allows_source : (Text → Text → Bool) → ExcludeSet → Text → Text → Bool
allows_source eligible e path content = not e.private_memory || eligible path content
