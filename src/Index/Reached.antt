-- ===== src/Index/Reached.antt =====
-- The indexes that the operations reach, and what is true of each of them.
use obsidian_mcp.Common.{
  ◌+◌, ◌≤◌, ◌<◌, ◌≡◌, refl, sym, subst, Bool, true, false, Option, none, some, arith,
}
use obsidian_mcp.Text.{Text}
use obsidian_mcp.Errors.{ok}
use obsidian_mcp.Map.Sums.{total, count}
use obsidian_mcp.Models.{FileStat}
use obsidian_mcp.Index.{Env, VaultIndex, empty_index}
use obsidian_mcp.Index.Backlinks.{recompute_stats}
use obsidian_mcp.Index.Updates.{
  remove_file, add_excluded_file, begin_source_batch, finish_source_batch,
}
use obsidian_mcp.Index.Observations.{Tantivy, apply_observation, refresh_unchanged_note}
use obsidian_mcp.Index.Files.{
  Filesystem, reindex_file, rename_file, refresh_file, remove_projection,
}
use obsidian_mcp.Index.Closed.{
  IsPlain, Closed, reindex_file-Closed, rename_file-Closed, refresh_file-Closed,
}
use obsidian_mcp.Index.Counted.{Counted, uncounted-Counted, either-Counted, size_of, itself}
use obsidian_mcp.Index.Counting.{rebuild-Counted, remove_file-Counted, add_excluded_file-Counted}
use obsidian_mcp.Index.Outcomes.{update_observation-Counted}
use obsidian_mcp.Index.Applying.{
  empty_index-Counted, refresh-Counted, finish_refresh-Counted, apply_observation-Counted,
}

-- The indexes that a vault's operations reach from the empty index. The paths that are observed have
-- no backslash, as the paths that `VaultPath` makes.
pub data Reachable (env : Env) : VaultIndex → Type 0 where
  starts : Reachable env empty_index
  observes :
      (tv : Option Tantivy) (enabled : Bool) (path : Text) (content : Option Text) (stat : FileStat)
      (ix : VaultIndex)
      → IsPlain path
      → Reachable env ix
      → Reachable env (apply_observation env tv enabled path content stat ix).0
  refreshes :
      (path revision : Text) (stat : FileStat) (ix : VaultIndex)
      → Reachable env ix
      → Reachable env (refresh_unchanged_note path revision stat ix).0
  removes :
      (path : Text) (ix : VaultIndex) → Reachable env ix → Reachable env (remove_file env path ix)
  excludes :
      (path : Text) (ix : VaultIndex)
      → Reachable env ix
      → Reachable env (add_excluded_file env path ix)
  begins : (ix : VaultIndex) → Reachable env ix → Reachable env (begin_source_batch ix)
  finishes : (ix : VaultIndex) → Reachable env ix → Reachable env (finish_source_batch env ix)
  reindexes :
      (fs : Filesystem) (path : Text) (ix : VaultIndex)
      → ((actual : Text) → fs.resolve_existing path ≡ ok actual → IsPlain actual)
      → Reachable env ix
      → Reachable env (reindex_file env fs path ix).0
  renames :
      (fs : Filesystem) (old new : Text) (ix : VaultIndex)
      → ((actual : Text) → fs.resolve_existing new ≡ ok actual → IsPlain actual)
      → Reachable env ix
      → Reachable env (rename_file env fs old new ix).0
  rereads :
      (fs : Filesystem) (tv : Option Tantivy) (enabled : Bool) (path : Text) (ix : VaultIndex)
      → IsPlain path
      → Reachable env ix
      → Reachable env (refresh_file env fs tv enabled path ix).0
  projects :
      (tv : Option Tantivy) (path : Text) (ix : VaultIndex)
      → Reachable env ix
      → Reachable env (remove_projection env tv path ix).0

in_batch : (ix : VaultIndex) (b : Bool) → Counted ix → Counted (record ix { source_batch = b })
in_batch ix b c =
    uncounted-Counted ix ix.source_revisions ix.link_resolver ix.backlinks b ix.waiting_for_lexical
      c

pub Counted-Closed : (env : Env) → Closed env Counted
Counted-Closed env = record {
  removing = remove_file-Counted env;
  forgetting = λ m ix c.
      uncounted-Counted ix m ix.link_resolver ix.backlinks ix.source_batch ix.waiting_for_lexical c;
  observing =
      λ path content stat ix plain c. update_observation-Counted env path plain content stat ix c;
  finishing = finish_refresh-Counted env;
}

-- `remove_projection` leaves the index that `remove_file` leaves.
pub remove_projection-remove_file :
    (env : Env) (tv : Option Tantivy) (path : Text) (ix : VaultIndex)
    → (remove_projection env tv path ix).0 ≡ remove_file env path ix
unfolding remove_projection
remove_projection-remove_file env none path ix = refl
remove_projection-remove_file env (some tv) path ix = refl

pub reached-Counted : (env : Env) {ix : VaultIndex} → Reachable env ix → Counted ix
unfolding begin_source_batch finish_source_batch
reached-Counted env starts = empty_index-Counted
reached-Counted env (observes tv enabled path content stat ix plain r) =
    apply_observation-Counted env tv enabled path content stat ix plain (reached-Counted env r)
reached-Counted env (refreshes path revision stat ix r) =
    refresh-Counted env path revision stat ix (reached-Counted env r)
reached-Counted env (removes path ix r) = remove_file-Counted env path ix (reached-Counted env r)
reached-Counted env (excludes path ix r) =
    add_excluded_file-Counted env path ix (reached-Counted env r)
reached-Counted env (begins ix r) = in_batch ix true (reached-Counted env r)
reached-Counted env (finishes ix r) =
    either-Counted ix.source_batch _ _
      (rebuild-Counted env _ (in_batch ix false (reached-Counted env r))) (reached-Counted env r)
reached-Counted env (reindexes fs path ix plain r) =
    reindex_file-Closed env Counted (Counted-Closed env) fs path ix plain (reached-Counted env r)
reached-Counted env (renames fs old new ix plain r) =
    rename_file-Closed env Counted (Counted-Closed env) fs old new ix plain (reached-Counted env r)
reached-Counted env (rereads fs tv enabled path ix plain r) =
    refresh_file-Closed env Counted (Counted-Closed env) fs tv enabled path ix plain
      (reached-Counted env r)
reached-Counted env (projects tv path ix r) =
    subst Counted (sym (remove_projection-remove_file env tv path ix))
      (remove_file-Counted env path ix (reached-Counted env r))

-- In every index that the operations reach from paths without backslashes, the statistics that they
-- update one by one are those that a count from scratch gives.
pub reached-recompute_stats :
    (env : Env) {ix : VaultIndex} → Reachable env ix → (recompute_stats ix).stats ≡ ix.stats
unfolding recompute_stats
reached-recompute_stats env {ix} r =
    let c = reached-Counted env r in
    rw (
      sym c.files_counted,
      sym c.notes_counted,
      sym c.tags_counted,
      sym c.links_counted,
      sym c.excluded_counted,
      c.attachment_bytes_counted,
      sym c.bytes_counted,
    )

-- In every index that the operations reach from paths without backslashes, a path is a note, an
-- attachment or an excluded note, but never two of these.
pub reached_one_kind :
    (env : Env) {ix : VaultIndex} (path : Text)
    → Reachable env ix
    → count path ix.notes + (count path ix.attachments + count path ix.excluded_note_paths) ≤ 1
reached_one_kind env path r = (reached-Counted env r).one_kind path

-- In every index that the operations reach from paths without backslashes, the sizes of the notes
-- and of the attachments together are less than 2^64.
pub reached_bytes :
    (env : Env) {ix : VaultIndex}
    → Reachable env ix
    → total size_of ix.notes + total itself ix.attachments < 18446744073709551616
reached_bytes env r =
    let c = reached-Counted env r in omega (arith, c.bytes_counted, c.bytes_bounded)
