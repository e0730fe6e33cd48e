-- ===== src/Index.antt =====
-- The in-memory index of a vault (src/vault/index.rs). What the operations use of other parts comes
-- in `Env`. The native watch spellings, the handle of the file system and the retained contents of a
-- read view are not in the state. Subtraction of numbers stops at 0; that it is exact wherever the
-- statistics use it follows from the invariant.
pub mod Backlinks
pub mod Updates
pub mod Entering
pub mod Observations
pub mod Files
pub mod Closed
pub mod Counted
pub mod Removing
pub mod Entries
pub mod Counting
pub mod Observing
pub mod Outcomes
pub mod Applying
pub mod Reached
pub mod Refusals
pub mod Queries
pub mod Linked
pub mod Graph
pub mod Relinking
pub mod Navigable
use obsidian_mcp.Common.{
  ℕ, ◌+◌, ◌-◌, ◌^◌, ◌≤◌, ◌<◌, Bool, true, false, not, ◌&&◌, ◌||◌, Option, none, some, List, [], ◌∷◌,
  length, any, leb, ltb, is_some, and_then, map, if◌then◌else◌,
}
use obsidian_mcp.Text.{Text, codes, text_eq, is_empty, rsplit_once, eq_ignore_ascii_case}
use obsidian_mcp.Errors.{
  VaultError, Result, ok, err, other, storage, StorageErrorKind, resource_limit, MutationOutcome,
  not_dispatched, ◌>>=◌, ok_or,
}
use obsidian_mcp.Map.{Map, Set, lookup, insert, remove, contains_key, add}
use obsidian_mcp.Path.{logical_separators, logical_file_name}
use obsidian_mcp.Models.{FileStat, WikiLink, NoteMetadata, VaultStats}
use obsidian_mcp.Exclude.{ExcludeSet, is_visible_path, is_excluded, allows_source}
use obsidian_mcp.Source.{source_revision}
use obsidian_mcp.Wikilink.{LinkResolver, resolve, add_path, remove_path, empty}

-- The policy, and the functions of other parts that the index calls.
pub record Env : Type 0 where
  pub nfc : Text → Text
  pub to_lowercase : Text → Text
  pub digest : Text → List ℕ
  pub exclude : ExcludeSet
  pub eligible : Text → Text → Bool
  pub parse_note_metadata : Text → Text → FileStat → Result NoteMetadata

pub record VaultIndex : Type 0 where
  pub notes : Map NoteMetadata
  pub source_revisions : Map Text
  pub tags : Map Set
  pub link_resolver : LinkResolver
  pub backlinks : Map Set
  pub stats : VaultStats
  pub attachments : Map ℕ
  pub attachment_bytes : ℕ
  pub excluded_note_paths : Set
  pub source_batch : Bool
  pub waiting_for_lexical : Map ℕ

-- `VaultIndex::empty`
abbrev pub empty_index : VaultIndex
empty_index = record {
  notes = [];
  source_revisions = [];
  tags = [];
  link_resolver = empty;
  backlinks = [];
  stats = record {
    total_notes = 0;
    total_files = 0;
    total_tags = 0;
    total_links = 0;
    vault_size_bytes = 0;
    excluded_notes = 0;
  };
  attachments = [];
  attachment_bytes = 0;
  excluded_note_paths = [];
  source_batch = false;
  waiting_for_lexical = [];
}

-- `or_default` of a set
abbrev pub set_or_empty : Option Set → Set
set_or_empty none = []
set_or_empty (some s) = s

-- the set at a key, empty if the key is missing, gets one more member
abbrev pub entry_add : Text → Text → Map Set → Map Set
entry_add k member m = insert k (add member (set_or_empty (lookup k m))) m

-- `for tag in &metadata.tags` in `replace_note`
unfoldable pub add_tags : (Text → Text) → Text → List Text → Map Set → Map Set
add_tags to_lowercase path [] m = m
add_tags to_lowercase path (tag ∷ tags) m =
    add_tags to_lowercase path tags (entry_add (to_lowercase tag) path m)

-- the first loop of `remove_note_contributions`: the path leaves the set of each tag, and the tags
-- with no path left are listed
unfoldable pub drop_tags : (Text → Text) → Text → List Text → Map Set → Map Set × List Text
drop_tags to_lowercase path [] m = (m, [])
drop_tags to_lowercase path (tag ∷ tags) m = elim (lookup (to_lowercase tag) m) [
  | none ↦ drop_tags to_lowercase path tags m
  | some paths ↦
      let left = remove path paths in
      let (m', empties) = drop_tags to_lowercase path tags (insert (to_lowercase tag) left m) in
      (m', (if is_empty left then to_lowercase tag ∷ empties else empties))
]

-- its second loop
unfoldable pub remove_keys : List Text → Map Set → Map Set
remove_keys [] m = m
remove_keys (k ∷ ks) m = remove_keys ks (remove k m)

-- the statistics in `remove_note_contributions`
abbrev less_note : Map NoteMetadata → Map ℕ → Map Set → NoteMetadata → VaultStats → VaultStats
less_note notes attachments tags old s = record s {
  total_notes = length notes;
  total_files = length notes + length attachments;
  total_tags = length tags;
  total_links = s.total_links - length old.links;
  vault_size_bytes = s.vault_size_bytes - old.stat.size;
}

-- `remove_note_contributions`
unfoldable pub remove_note_contributions :
    (Text → Text) → Text → VaultIndex → VaultIndex × Option NoteMetadata
unfolding drop_tags remove_keys
remove_note_contributions to_lowercase path ix = elim (lookup path ix.notes) [
  | none ↦ (ix, none)
  | some old ↦
      let notes = remove path ix.notes in
      let (dropped, empties) = drop_tags to_lowercase path old.tags ix.tags in
      let tags = remove_keys empties dropped in
      (
        record ix {
          notes = notes;
          tags = tags;
          stats = less_note notes ix.attachments tags old ix.stats;
        },
        some old,
      )
]
