-- ===== src/Index/Navigable.antt =====
-- In every index that the operations reach from paths without backslashes, the backlinks are the
-- links between its notes.
use obsidian_mcp.Common.{◌≡◌, refl, sym, subst, false, arith}
use obsidian_mcp.Text.{Text}
use obsidian_mcp.Map.{contains_key}
use obsidian_mcp.Map.Laws.{lookup-nil}
use obsidian_mcp.Index.{Env, VaultIndex}
use obsidian_mcp.Index.Updates.{begin_source_batch, finish_source_batch}
use obsidian_mcp.Index.Observations.{apply_observation}
use obsidian_mcp.Index.Entering.{update_observation}
use obsidian_mcp.Index.Closed.{Closed, reindex_file-Closed, rename_file-Closed, refresh_file-Closed}
use obsidian_mcp.Index.Counted.{Counted}
use obsidian_mcp.Index.Linked.{has, links_to}
use obsidian_mcp.Index.Graph.{rebuild-Linked, Ready, either-Ready, remove_file-Ready}
use obsidian_mcp.Index.Reached.{
  Reachable, starts, observes, refreshes, removes, excludes, begins, finishes, reindexes, renames,
  rereads, projects, Counted-Closed, remove_projection-remove_file, reached-Counted,
}
use obsidian_mcp.Index.Outcomes.{update_observation-Counted}
use obsidian_mcp.Index.Relinking.{
  excluded-Ready, update_observation-Ready, refresh-Ready, finish_refresh-Ready,
}

-- Right statistics, and right backlinks outside a batch.
abbrev Sound : Env → VaultIndex → Type 0
Sound env ix = Counted ix × Ready env ix

Sound-Closed : (env : Env) → Closed env (Sound env)
Sound-Closed env = record {
  removing = λ path ix h.
      ((Counted-Closed env).removing path ix h.0, remove_file-Ready env path ix h.0 h.1);
  forgetting = λ m ix h.
      ((Counted-Closed env).forgetting m ix h.0, (λ live. record { linked = (h.1 live).linked }));
  observing = λ path content stat ix plain h. (
    (Counted-Closed env).observing path content stat ix plain h.0,
    update_observation-Ready env path content stat ix h.0 h.1,
  );
  finishing = λ path was_note update tv enabled ix h. (
    (Counted-Closed env).finishing path was_note update tv enabled ix h.0,
    finish_refresh-Ready env path was_note update tv enabled ix h.0 h.1,
  );
}

reached-Ready : (env : Env) {ix : VaultIndex} → Reachable env ix → Ready env ix
unfolding begin_source_batch finish_source_batch apply_observation
reached-Ready env starts = λ _. record { linked = λ t s. rw lookup-nil (rw lookup-nil refl) }
reached-Ready env (observes tv enabled path content stat ix plain r) =
    let c = reached-Counted env r in
    finish_refresh-Ready env path (contains_key path ix.notes)
      (update_observation env path content stat ix).1 tv enabled _
      (update_observation-Counted env path plain content stat ix c)
      (update_observation-Ready env path content stat ix c (reached-Ready env r))
reached-Ready env (refreshes path revision stat ix r) =
    refresh-Ready env path revision stat ix (reached-Ready env r)
reached-Ready env (removes path ix r) =
    remove_file-Ready env path ix (reached-Counted env r) (reached-Ready env r)
reached-Ready env (excludes path ix r) =
    excluded-Ready env path ix (reached-Counted env r) (reached-Ready env r)
reached-Ready env (begins ix r) = λ live. absurd (ground (arith, live))
reached-Ready env (finishes ix r) =
    either-Ready env ix.source_batch _ _
      (λ _ _.
        rebuild-Linked env (record ix { source_batch = false }) (reached-Counted env r).one_note)
      (λ _. reached-Ready env r)
reached-Ready env (reindexes fs path ix plain r) =
    (reindex_file-Closed env (Sound env) (Sound-Closed env) fs path ix plain
      (reached-Counted env r, reached-Ready env r)).1
reached-Ready env (renames fs old new ix plain r) =
    (rename_file-Closed env (Sound env) (Sound-Closed env) fs old new ix plain
      (reached-Counted env r, reached-Ready env r)).1
reached-Ready env (rereads fs tv enabled path ix plain r) =
    (refresh_file-Closed env (Sound env) (Sound-Closed env) fs tv enabled path ix plain
      (reached-Counted env r, reached-Ready env r)).1
reached-Ready env (projects tv path ix r) =
    subst (Ready env) (sym (remove_projection-remove_file env tv path ix))
      (remove_file-Ready env path ix (reached-Counted env r) (reached-Ready env r))

-- In every index that the operations reach from paths without backslashes outside a batch, a note
-- is among the backlinks of a target exactly if it has a link that resolves to the target.
pub reached-backlinks :
    (env : Env) {ix : VaultIndex} (target source : Text)
    → Reachable env ix
    → ix.source_batch ≡ false
    → has target source ix.backlinks ≡ links_to env ix.link_resolver target source ix.notes
reached-backlinks env target source r live = (reached-Ready env r live).linked target source
