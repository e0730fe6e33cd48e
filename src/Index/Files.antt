-- ===== src/Index/Files.antt =====
-- Reading a file from disk into an index (src/vault/index.rs). The file system is input: `Filesystem`
-- has its answers.
use obsidian_mcp.Common.{ℕ, Bool, true, false, not, ◌&&◌, Option, none, some, if◌then◌else◌}
use obsidian_mcp.Text.{Text}
use obsidian_mcp.Path.{same_path}
use obsidian_mcp.Errors.{VaultError, Result, ok, err, ◌>>=◌}
use obsidian_mcp.Map.{remove, contains_key}
use obsidian_mcp.Models.{FileStat}
use obsidian_mcp.Exclude.{is_visible_path}
use obsidian_mcp.Index.{Env, VaultIndex}
use obsidian_mcp.Index.Updates.{FileClass, classify, remove_file}
use obsidian_mcp.Index.Observations.{Tantivy, is_limit, finish_refresh}
use obsidian_mcp.Index.Entering.{update_observation}

-- The metadata of an entry: whether it is a file and no link, and its length.
pub record Entry : Type 0 where
  pub is_file : Bool
  pub len : ℕ

-- What the file system answers.
pub record Filesystem : Type 0 where
  pub resolve_existing : Text → Result Text
  pub entry_metadata_exact : Text → Result Entry
  pub read_observed_with_stat : Text → Result (Text × FileStat)
  pub is_missing_entry : VaultError → Bool

-- the content and the stat that `update_file` observes
unfoldable pub observed_file : FileClass → Filesystem → Text → ℕ → Result (Option Text × FileStat)
observed_file FileClass.note fs path size =
    fs.read_observed_with_stat path >>= λ r. ok (some (r.0), r.1)
observed_file FileClass.excluded fs path size =
    ok (none, record { size = size; created = none; modified = none })
observed_file FileClass.attachment fs path size =
    ok (none, record { size = size; created = none; modified = none })

-- the end of `update_file`, for a file
unfoldable pub observe_file :
    Env → Text → Result (Option Text × FileStat) → VaultIndex → VaultIndex × Result (Option Text)
unfolding update_observation
observe_file env path (err e) ix = (ix, err e)
observe_file env path (ok (content, stat)) ix = update_observation env path content stat ix

-- `update_file` for a visible path
unfoldable pub update_entry :
    Env → Filesystem → Text → Bool → Result Entry → VaultIndex → VaultIndex × Result (Option Text)
unfolding observe_file observed_file classify remove_file
update_entry env fs path require_existing (ok entry) ix =
    if entry.is_file
    then observe_file env path (observed_file (classify env path) fs path entry.len) ix
    else (remove_file env path ix, ok none)
update_entry env fs path require_existing (err e) ix =
    if not require_existing && fs.is_missing_entry e
    then (remove_file env path ix, ok none)
    else (ix, err e)

-- `update_file`
unfoldable pub update_file :
    Env → Filesystem → Text → Bool → VaultIndex → VaultIndex × Result (Option Text)
unfolding is_visible_path update_entry remove_file
update_file env fs path require_existing ix =
    if not (is_visible_path path)
    then (remove_file env path ix, ok none)
    else update_entry env fs path require_existing (fs.entry_metadata_exact path) ix

-- what `reindex_file` does after an error
unfoldable pub settle : Env → Text → Result (Option Text) → VaultIndex → VaultIndex
unfolding remove_file
settle env actual (ok o) ix = ix
settle env actual (err e) ix =
    let forgotten = record ix { source_revisions = remove actual ix.source_revisions } in
    if not (is_limit e) then remove_file env actual forgotten else forgotten

abbrev forget_content : Result (Option Text) → Result (Unit {0})
forget_content (ok o) = ok tt
forget_content (err e) = err e

-- `reindex_file` once the vault's file system is bound
unfoldable pub reindex_file : Env → Filesystem → Text → VaultIndex → VaultIndex × Result (Unit {0})
unfolding update_file settle remove_file
reindex_file env fs path ix = elim (fs.resolve_existing path) [
  | err e ↦ (remove_file env path ix, err e)
  | ok actual ↦
      let cleared : VaultIndex = if same_path actual path then ix else remove_file env path ix in
      let (updated, result) = update_file env fs actual true cleared in
      (settle env actual result updated, forget_content result)
]

-- `rename_file`
unfoldable pub rename_file :
    Env → Filesystem → Text → Text → VaultIndex → VaultIndex × Result (Unit {0})
unfolding reindex_file remove_file
rename_file env fs old new ix = reindex_file env fs new (remove_file env old ix)

-- `refresh_file`
unfoldable pub refresh_file :
    Env → Filesystem → Option Tantivy → Bool → Text → VaultIndex → VaultIndex × Result Bool
unfolding update_file finish_refresh
refresh_file env fs tv enabled path ix =
    let was_note = contains_key path ix.notes in
    let (updated, update) = update_file env fs path false ix in
    finish_refresh env path was_note update tv enabled updated

-- `remove_projection`
unfoldable pub remove_projection :
    Env → Option Tantivy → Text → VaultIndex → VaultIndex × Result Bool
unfolding remove_file
remove_projection env none path ix = (remove_file env path ix, ok false)
remove_projection env (some tv) path ix = (
  remove_file env path ix,
  if contains_key path ix.notes then (tv.remove_file_batch path >>= λ u. ok true) else ok false,
)
