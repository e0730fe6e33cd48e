-- ===== src/Index/Closed.antt =====
-- What removals and observations keep, the operations on files of the disk keep as well.
use obsidian_mcp.Common.{
  ◌≡◌, Bool, true, false, not, ◌&&◌, Option, any, if◌then◌else◌, Bool-cases, inl, inr, ◌==◌,
}
use obsidian_mcp.Text.{Text}
use obsidian_mcp.Errors.{Result, ok, err, Result-cases}
use obsidian_mcp.Map.{Map, contains_key}
use obsidian_mcp.Path.{backslash, same_path}
use obsidian_mcp.Models.{FileStat}
use obsidian_mcp.Exclude.{is_visible_path}
use obsidian_mcp.Index.{Env, VaultIndex}
use obsidian_mcp.Index.Updates.{classify, remove_file}
use obsidian_mcp.Index.Observations.{Tantivy, is_limit, finish_refresh}
use obsidian_mcp.Index.Entering.{update_observation}
use obsidian_mcp.Index.Files.{
  Filesystem, Entry, observed_file, observe_file, update_entry, update_file, settle, reindex_file,
  rename_file, refresh_file,
}

abbrev pub IsPlain : Text → Type 0
IsPlain path = any (λ c. c == backslash) path ≡ false

-- A property of indexes that the basic operations keep.
pub record Closed (env : Env) (P : VaultIndex → Type 0) : Type 0 where
  pub removing : (path : Text) (ix : VaultIndex) → P ix → P (remove_file env path ix)
  pub forgetting : (m : Map Text) (ix : VaultIndex) → P ix → P (record ix { source_revisions = m })
  pub observing :
      (path : Text) (content : Option Text) (stat : FileStat) (ix : VaultIndex)
      → IsPlain path
      → P ix
      → P (update_observation env path content stat ix).0
  pub finishing :
      (path : Text) (was_note : Bool) (update : Result (Option Text)) (tv : Option Tantivy)
      (enabled : Bool) (ix : VaultIndex)
      → P ix
      → P (finish_refresh env path was_note update tv enabled ix).0

module _ (env : Env) (P : VaultIndex → Type 0) (closed : Closed env P) (fs : Filesystem) where
  either : (b : Bool) (x y : VaultIndex) → P x → P y → P (if b then x else y)
  either true x y hx hy = hx
  either false x y hx hy = hy

  observe_file-Closed :
      (path : Text) (r : Result (Option Text × FileStat)) (ix : VaultIndex)
      → IsPlain path
      → P ix
      → P (observe_file env path r ix).0
  unfolding observe_file
  observe_file-Closed path (err e) ix plain h = h
  observe_file-Closed path (ok (content, stat)) ix plain h =
      closed.observing path content stat ix plain h

  update_entry-Closed :
      (path : Text) (require_existing : Bool) (r : Result Entry) (ix : VaultIndex)
      → IsPlain path
      → P ix
      → P (update_entry env fs path require_existing r ix).0
  unfolding update_entry
  update_entry-Closed path require_existing (ok entry) ix plain h =
      elim (Bool-cases entry.is_file) [
        | inl e ↦ rw e (
            observe_file-Closed path (observed_file (classify env path) fs path entry.len) ix plain
              h)
        | inr e ↦ rw e (closed.removing path ix h)
      ]
  update_entry-Closed path require_existing (err x) ix plain h =
      elim (Bool-cases (not require_existing && fs.is_missing_entry x)) [
        | inl e ↦ rw e (closed.removing path ix h)
        | inr e ↦ rw e h
      ]

  update_file-Closed :
      (path : Text) (require_existing : Bool) (ix : VaultIndex)
      → IsPlain path
      → P ix
      → P (update_file env fs path require_existing ix).0
  unfolding update_file
  update_file-Closed path require_existing ix plain h = elim (Bool-cases (is_visible_path path)) [
    | inl e ↦
        rw e (update_entry-Closed path require_existing (fs.entry_metadata_exact path) ix plain h)
    | inr e ↦ rw e (closed.removing path ix h)
  ]

  settle-Closed :
      (actual : Text) (r : Result (Option Text)) (ix : VaultIndex)
      → P ix
      → P (settle env actual r ix)
  unfolding settle
  settle-Closed actual (ok o) ix h = h
  settle-Closed actual (err e) ix h =
      let forgotten = closed.forgetting _ ix h in
      either (not (is_limit e)) _ _ (closed.removing actual _ forgotten) forgotten

  pub reindex_file-Closed :
      (path : Text) (ix : VaultIndex)
      → ((actual : Text) → fs.resolve_existing path ≡ ok actual → IsPlain actual)
      → P ix
      → P (reindex_file env fs path ix).0
  unfolding reindex_file
  reindex_file-Closed path ix plain h = elim (Result-cases (fs.resolve_existing path)) [
    | inr (x, e) ↦ rw (e, reindex_file) (closed.removing path ix h)
    | inl (actual, e) ↦
        let cleared : VaultIndex = if same_path actual path then ix else remove_file env path ix in
        let begun =
          either (same_path actual path) ix (remove_file env path ix) h
            (closed.removing path ix h) in
        rw (e, reindex_file)
          (settle-Closed actual (update_file env fs actual true cleared).1 _
            (update_file-Closed actual true cleared (plain actual e) begun))
  ]

  pub rename_file-Closed :
      (old new : Text) (ix : VaultIndex)
      → ((actual : Text) → fs.resolve_existing new ≡ ok actual → IsPlain actual)
      → P ix
      → P (rename_file env fs old new ix).0
  unfolding rename_file
  rename_file-Closed old new ix plain h = reindex_file-Closed new _ plain (closed.removing old ix h)

  pub refresh_file-Closed :
      (tv : Option Tantivy) (enabled : Bool) (path : Text) (ix : VaultIndex)
      → IsPlain path
      → P ix
      → P (refresh_file env fs tv enabled path ix).0
  unfolding refresh_file
  refresh_file-Closed tv enabled path ix plain h =
      closed.finishing path (contains_key path ix.notes) (update_file env fs path false ix).1 tv
        enabled _ (update_file-Closed path false ix plain h)
