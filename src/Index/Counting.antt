-- ===== src/Index/Counting.antt =====
-- Every operation keeps the statistics of an index right.
use obsidian_mcp.Common.{◌+◌, ◌&&◌, Option, List, arith, Option-cases, inl, inr}
use obsidian_mcp.Text.{Text}
use obsidian_mcp.Text.Compare.{text_eq_refl}
use obsidian_mcp.Map.{remove, contains_key, add}
use obsidian_mcp.Map.Sums.{insert-Unique, length-insert, count-insert}
use obsidian_mcp.Path.{logical_separators}
use obsidian_mcp.Exclude.{is_visible_path}
use obsidian_mcp.Wikilink.{remove_path}
use obsidian_mcp.Index.{Env, VaultIndex, remove_note_contributions}
use obsidian_mcp.Index.Backlinks.{rebuild_backlinks, update_backlinks_for_file}
use obsidian_mcp.Index.Updates.{forget_note, remove_file, add_excluded_file, is_markdown}
use obsidian_mcp.Index.Entries.{Vacant, remove_file-Vacant, logical_separators_plain}
use obsidian_mcp.Index.Counted.{
  Counted, uncounted-Counted, either-Counted, forget_excluded-Counted, forget_attachment-Counted,
  remove_note-Counted,
}

module _ (env : Env) where
  pub rebuild-Counted : (ix : VaultIndex) → Counted ix → Counted (rebuild_backlinks env ix)
  unfolding rebuild_backlinks
  rebuild-Counted ix c = uncounted-Counted ix _ _ _ _ _ c

  pub update_backlinks-Counted :
      (path : Text) (old : Option (List _)) (ix : VaultIndex)
      → Counted ix
      → Counted (update_backlinks_for_file env path old ix)
  unfolding update_backlinks_for_file
  update_backlinks-Counted path old ix c = uncounted-Counted ix _ _ _ _ _ c

  forget_note-Counted :
      (path : Text) (ix : VaultIndex) → Counted ix → Counted (forget_note env path ix)
  unfolding forget_note
  forget_note-Counted path ix c =
      let (left, old) = remove_note_contributions env.to_lowercase path ix in
      let kept = remove_note-Counted env.to_lowercase path ix c in
      let unlinked =
        uncounted-Counted left left.source_revisions
          (remove_path env.nfc env.to_lowercase path left.link_resolver)
          (remove path left.backlinks) left.source_batch left.waiting_for_lexical kept in
      elim (Option-cases old) [
        | inl e ↦ rw (e, forget_note) kept
        | inr (n, e) ↦
            rw (e, forget_note)
              (either-Counted left.source_batch _ _ unlinked (rebuild-Counted _ unlinked))
      ]

  -- Removing a file keeps the statistics right.
  pub remove_file-Counted :
      (path : Text) (ix : VaultIndex) → Counted ix → Counted (remove_file env path ix)
  unfolding remove_file
  remove_file-Counted path ix c =
      let p = logical_separators path in
      let start =
        uncounted-Counted ix (remove p ix.source_revisions) ix.link_resolver ix.backlinks
          ix.source_batch (remove p ix.waiting_for_lexical) c in
      forget_note-Counted p _ (forget_attachment-Counted p _ (forget_excluded-Counted p _ start))

  -- One more excluded note.
  excluded-Counted :
      (p : Text) (ix : VaultIndex)
      → Counted ix
      → Vacant p ix
      → Counted (record ix {
        excluded_note_paths = add p ix.excluded_note_paths;
        stats = record ix.stats { excluded_notes = ix.stats.excluded_notes + 1 };
      })
  excluded-Counted p ix c free = record {
    one_note = c.one_note;
    one_attachment = c.one_attachment;
    one_excluded = insert-Unique p tt ix.excluded_note_paths c.one_excluded;
    one_kind =
        λ k. ground (arith, count-insert p k tt ix.excluded_note_paths, free k, c.one_kind k);
    notes_counted = c.notes_counted;
    files_counted = c.files_counted;
    tags_counted = c.tags_counted;
    links_counted = c.links_counted;
    bytes_counted = c.bytes_counted;
    attachment_bytes_counted = c.attachment_bytes_counted;
    excluded_counted = omega (
      arith,
      length-insert p tt ix.excluded_note_paths,
      free p (text_eq_refl p),
      c.excluded_counted,
    );
    bytes_bounded = c.bytes_bounded;
  }

  -- Excluding a file keeps the statistics right.
  pub add_excluded_file-Counted :
      (path : Text) (ix : VaultIndex) → Counted ix → Counted (add_excluded_file env path ix)
  unfolding add_excluded_file
  add_excluded_file-Counted path ix c =
      let p = logical_separators path in
      let left = remove_file-Counted p ix c in
      either-Counted (contains_key p ix.excluded_note_paths) _ _ c (
        either-Counted (is_visible_path p && is_markdown p) _ _
          (excluded-Counted p _ left (remove_file-Vacant env p ix (logical_separators_plain path)))
          left)
