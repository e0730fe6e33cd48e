-- ===== src/Index/Observing.antt =====
-- Observations keep the statistics of an index right.
use obsidian_mcp.Common.{ℕ, ◌+◌, ◌≤◌, ◌≡◌, refl, ap, arith}
use obsidian_mcp.Text.{Text}
use obsidian_mcp.Text.Compare.{text_eq_refl}
use obsidian_mcp.Map.{lookup, insert, remove}
use obsidian_mcp.Map.Sums.{
  total, weight, count, insert-Unique, remove-Unique, total-insert, total-remove, length-insert,
  count-insert, count-remove, absent-weight,
}
use obsidian_mcp.Models.{NoteMetadata}
use obsidian_mcp.Index.{Env, VaultIndex}
use obsidian_mcp.Index.Entering.{enter_note}
use obsidian_mcp.Index.Counted.{Counted, size_of, links_of, itself}
use obsidian_mcp.Index.Entries.{Admitted, Vacant}
use obsidian_mcp.Index.Removing.{Entries}

-- One more attachment, in the place of what the path had before.
pub attached-Counted :
    (path : Text) (size t b : ℕ) (ix left : VaultIndex)
    → Counted ix
    → Counted left
    → Vacant path left
    → Entries left
        (remove path ix.notes)
        (remove path ix.attachments)
        (remove path ix.excluded_note_paths)
    → Admitted ix path size size t b
    → Counted (record left {
      attachments = insert path size left.attachments;
      attachment_bytes = b;
      stats = record left.stats { total_files = left.stats.total_files + 1; vault_size_bytes = t };
    })
attached-Counted path size t b ix left c d free e a =
    let free_path = free path (text_eq_refl path) in
    let gone = absent-weight itself path left.attachments (omega (arith, free_path)) in
    let notes = ap (total size_of) e.notes in
    let files = ap (total itself) e.attachments in
    let less_notes = total-remove size_of path ix.notes c.one_note in
    let less_files = total-remove itself path ix.attachments c.one_attachment in
    let more = total-insert itself path size left.attachments in
    record {
      one_note = d.one_note;
      one_attachment = insert-Unique path size left.attachments d.one_attachment;
      one_excluded = d.one_excluded;
      one_kind =
          λ k. ground (arith, count-insert path k size left.attachments, free k, d.one_kind k);
      notes_counted = d.notes_counted;
      files_counted =
          omega (arith, length-insert path size left.attachments, free_path, d.files_counted);
      tags_counted = d.tags_counted;
      links_counted = d.links_counted;
      bytes_counted =
          omega (arith, gone, notes, files, less_notes, less_files, more, a.whole, c.bytes_counted);
      attachment_bytes_counted =
          omega (arith, gone, files, less_files, more, a.part, c.attachment_bytes_counted);
      excluded_counted = d.excluded_counted;
      bytes_bounded = a.bounded;
    }

-- The new metadata of a note, after all that the path had before has gone.
pub entered-Counted :
    (env : Env) (path : Text) (n : NoteMetadata) (t : ℕ) (ix left : VaultIndex)
    → Counted ix
    → Vacant path left
    → Entries left
        (remove path ix.notes)
        (remove path ix.attachments)
        (remove path ix.excluded_note_paths)
    → left.attachment_bytes + weight itself (lookup path ix.attachments) ≡ ix.attachment_bytes
    → left.stats.total_links + weight links_of (lookup path ix.notes) ≡ ix.stats.total_links
    → Admitted ix path n.stat.size 0 t left.attachment_bytes
    → Counted (enter_note env path n t left)
unfolding enter_note
entered-Counted env path n t ix left c free e part links a =
    let free_path = free path (text_eq_refl path) in
    let gone = absent-weight size_of path left.notes (omega (arith, free_path)) in
    let gone_links = absent-weight links_of path left.notes (omega (arith, free_path)) in
    let notes = ap (total size_of) e.notes in
    let links' = ap (total links_of) e.notes in
    let files = ap (total itself) e.attachments in
    let less_notes = total-remove size_of path ix.notes c.one_note in
    let less_links = total-remove links_of path ix.notes c.one_note in
    let less_files = total-remove itself path ix.attachments c.one_attachment in
    let more = total-insert size_of path n left.notes in
    let more_links = total-insert links_of path n left.notes in
    let once : (k : Text)
        → count k left.notes + (count k left.attachments + count k left.excluded_note_paths) ≤ 1 =
      λ k.
        rw (e.notes, e.attachments, e.excluded)
          (ground (
            arith,
            c.one_kind k,
            count-remove path k ix.notes,
            count-remove path k ix.attachments,
            count-remove path k ix.excluded_note_paths,
          )) in
    record {
      one_note =
          insert-Unique path n left.notes (rw e.notes (remove-Unique path ix.notes c.one_note));
      one_attachment = rw e.attachments (remove-Unique path ix.attachments c.one_attachment);
      one_excluded = rw e.excluded (remove-Unique path ix.excluded_note_paths c.one_excluded);
      one_kind = λ k. ground (arith, count-insert path k n left.notes, free k, once k);
      notes_counted = refl;
      files_counted = refl;
      tags_counted = refl;
      links_counted =
          omega (arith, gone_links, links', less_links, more_links, links, c.links_counted);
      bytes_counted =
          omega (arith, gone, notes, files, less_notes, less_files, more, a.whole, c.bytes_counted);
      attachment_bytes_counted = omega (arith, files, less_files, part, c.attachment_bytes_counted);
      excluded_counted = refl;
      bytes_bounded = a.bounded;
    }
