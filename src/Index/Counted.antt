-- ===== src/Index/Counted.antt =====
-- The statistics of an index count what it holds: the invariant, and the small operations.
use obsidian_mcp.Common.{
  ℕ, ◌+◌, ◌≤◌, ◌<◌, ◌≡◌, refl, subst, Bool, true, false, length, arith, if◌then◌else◌, Bool-cases,
  Option-cases, inl, inr,
}
use obsidian_mcp.Text.{Text}
use obsidian_mcp.Map.{Map, Set, lookup, remove, contains_key}
use obsidian_mcp.Map.Sums.{
  total, weight, count, Unique, remove-Unique, total-remove, length-remove, count-remove,
}
use obsidian_mcp.Models.{NoteMetadata}
use obsidian_mcp.Wikilink.{LinkResolver}
use obsidian_mcp.Index.{VaultIndex, remove_note_contributions}
use obsidian_mcp.Index.Updates.{forget_excluded, forget_attachment}

abbrev pub size_of : NoteMetadata → ℕ
size_of n = n.stat.size

abbrev pub links_of : NoteMetadata → ℕ
links_of n = length n.links

abbrev pub itself : ℕ → ℕ
itself n = n

-- A path has at most one entry, of one kind; each number of the statistics is what it says of the
-- entries; and the sizes of all files add up to a 64-bit number.
pub record Counted (ix : VaultIndex) : Type 0 where
  pub one_note : Unique ix.notes
  pub one_attachment : Unique ix.attachments
  pub one_excluded : Unique ix.excluded_note_paths
  pub one_kind :
      (k : Text) → count k ix.notes + (count k ix.attachments + count k ix.excluded_note_paths) ≤ 1
  pub notes_counted : ix.stats.total_notes ≡ length ix.notes
  pub files_counted : ix.stats.total_files ≡ length ix.notes + length ix.attachments
  pub tags_counted : ix.stats.total_tags ≡ length ix.tags
  pub links_counted : ix.stats.total_links ≡ total links_of ix.notes
  pub bytes_counted :
      ix.stats.vault_size_bytes ≡ total size_of ix.notes + total itself ix.attachments
  pub attachment_bytes_counted : ix.attachment_bytes ≡ total itself ix.attachments
  pub excluded_counted : ix.stats.excluded_notes ≡ length ix.excluded_note_paths
  pub bytes_bounded : ix.stats.vault_size_bytes < 18446744073709551616

pub forget_excluded-Counted :
    (path : Text) (ix : VaultIndex) → Counted ix → Counted (forget_excluded path ix)
unfolding forget_excluded
forget_excluded-Counted path ix c = elim (Bool-cases (contains_key path ix.excluded_note_paths)) [
  | inr e ↦ rw (e, forget_excluded) c
  | inl e ↦
      rw (e, forget_excluded)
        (record {
          one_note = c.one_note;
          one_attachment = c.one_attachment;
          one_excluded = remove-Unique path ix.excluded_note_paths c.one_excluded;
          one_kind = λ k. ground (arith, count-remove path k ix.excluded_note_paths, c.one_kind k);
          notes_counted = c.notes_counted;
          files_counted = c.files_counted;
          tags_counted = c.tags_counted;
          links_counted = c.links_counted;
          bytes_counted = c.bytes_counted;
          attachment_bytes_counted = c.attachment_bytes_counted;
          excluded_counted =
              ground (
                arith,
                length-remove path ix.excluded_note_paths c.one_excluded,
                c.excluded_counted,
              );
          bytes_bounded = c.bytes_bounded;
        })
]

pub forget_attachment-Counted :
    (path : Text) (ix : VaultIndex) → Counted ix → Counted (forget_attachment path ix)
unfolding forget_attachment
forget_attachment-Counted path ix c = elim (Option-cases (lookup path ix.attachments)) [
  | inl e ↦ rw (e, forget_attachment) c
  | inr (n, e) ↦
      let fewer : length (remove path ix.attachments) + 1 ≡ length ix.attachments =
        subst (λ o. length (remove path ix.attachments) + weight (λ _. 1) o ≡ length ix.attachments)
          e (length-remove path ix.attachments c.one_attachment) in
      let less : total itself (remove path ix.attachments) + n ≡ total itself ix.attachments =
        subst
          (λ o.
            total itself (remove path ix.attachments) + weight itself o
            ≡ total itself ix.attachments)
          e (total-remove itself path ix.attachments c.one_attachment) in
      rw (e, forget_attachment)
        (record {
          one_note = c.one_note;
          one_attachment = remove-Unique path ix.attachments c.one_attachment;
          one_excluded = c.one_excluded;
          one_kind = λ k. ground (arith, count-remove path k ix.attachments, c.one_kind k);
          notes_counted = c.notes_counted;
          files_counted = omega (arith, fewer, c.files_counted);
          tags_counted = c.tags_counted;
          links_counted = c.links_counted;
          bytes_counted = omega (arith, less, c.bytes_counted);
          attachment_bytes_counted = omega (arith, less, c.attachment_bytes_counted);
          excluded_counted = c.excluded_counted;
          bytes_bounded = omega (arith, c.bytes_bounded);
        })
]

pub remove_note-Counted :
    (to_lowercase : Text → Text) (path : Text) (ix : VaultIndex)
    → Counted ix
    → Counted (remove_note_contributions to_lowercase path ix).0
unfolding remove_note_contributions
remove_note-Counted to_lowercase path ix c = elim (Option-cases (lookup path ix.notes)) [
  | inl e ↦ rw (e, remove_note_contributions) c
  | inr (n, e) ↦
      let links : total links_of (remove path ix.notes) + links_of n ≡ total links_of ix.notes =
        subst
          (λ o. total links_of (remove path ix.notes) + weight links_of o ≡ total links_of ix.notes)
          e (total-remove links_of path ix.notes c.one_note) in
      let less : total size_of (remove path ix.notes) + size_of n ≡ total size_of ix.notes =
        subst
          (λ o. total size_of (remove path ix.notes) + weight size_of o ≡ total size_of ix.notes) e
          (total-remove size_of path ix.notes c.one_note) in
      rw (e, remove_note_contributions)
        (record {
          one_note = remove-Unique path ix.notes c.one_note;
          one_attachment = c.one_attachment;
          one_excluded = c.one_excluded;
          one_kind = λ k. ground (arith, count-remove path k ix.notes, c.one_kind k);
          notes_counted = refl;
          files_counted = refl;
          tags_counted = refl;
          links_counted = omega (arith, links, c.links_counted);
          bytes_counted = omega (arith, less, c.bytes_counted);
          attachment_bytes_counted = c.attachment_bytes_counted;
          excluded_counted = c.excluded_counted;
          bytes_bounded = omega (arith, c.bytes_bounded);
        })
]

-- What the statistics do not count may change.
pub uncounted-Counted :
    (ix : VaultIndex) (revisions : Map Text) (r : LinkResolver) (b : Map Set) (s : Bool) (w : Map ℕ)
    → Counted ix
    → Counted (record ix {
      source_revisions = revisions;
      link_resolver = r;
      backlinks = b;
      source_batch = s;
      waiting_for_lexical = w;
    })
uncounted-Counted ix revisions r b s w c = record {
  one_note = c.one_note;
  one_attachment = c.one_attachment;
  one_excluded = c.one_excluded;
  one_kind = c.one_kind;
  notes_counted = c.notes_counted;
  files_counted = c.files_counted;
  tags_counted = c.tags_counted;
  links_counted = c.links_counted;
  bytes_counted = c.bytes_counted;
  attachment_bytes_counted = c.attachment_bytes_counted;
  excluded_counted = c.excluded_counted;
  bytes_bounded = c.bytes_bounded;
}

pub either-Counted :
    (b : Bool) (x y : VaultIndex) → Counted x → Counted y → Counted (if b then x else y)
either-Counted true x y hx hy = hx
either-Counted false x y hx hy = hy
