-- ===== src/Index/Removing.antt =====
-- The entries of an index after a file is removed (src/vault/index.rs).
use obsidian_mcp.Common.{
  ℕ, ◌≡◌, refl, sym, ◌∙◌, ap, Bool, true, false, arith, any, ◌==◌, if◌then◌else◌, Bool-cases,
  Option-cases, inl, inr,
}
use obsidian_mcp.Text.{Text}
use obsidian_mcp.Map.{Map, Set, lookup, remove, contains_key}
use obsidian_mcp.Map.Sums.{absent-remove}
use obsidian_mcp.Path.{backslash, logical_separators}
use obsidian_mcp.Models.{NoteMetadata}
use obsidian_mcp.Index.{Env, VaultIndex, remove_note_contributions}
use obsidian_mcp.Index.Backlinks.{rebuild_backlinks}
use obsidian_mcp.Index.Updates.{forget_excluded, forget_attachment, forget_note, remove_file}

-- The entries for a path.
pub record Entries (ix : VaultIndex) (n : Map NoteMetadata) (a : Map ℕ) (x : Set) : Type 0 where
  pub notes : ix.notes ≡ n
  pub attachments : ix.attachments ≡ a
  pub excluded : ix.excluded_note_paths ≡ x

pub plain_path :
    (path : Text) → any (λ c. c == backslash) path ≡ false → logical_separators path ≡ path
unfolding logical_separators
plain_path path h = rw h refl

excluded_left :
    (path : Text) (ix : VaultIndex)
    → Entries (forget_excluded path ix) ix.notes ix.attachments (remove path ix.excluded_note_paths)
unfolding forget_excluded
excluded_left path ix = elim (Bool-cases (contains_key path ix.excluded_note_paths)) [
  | inr e ↦
      rw (e, forget_excluded)
        (record {
          notes = refl;
          attachments = refl;
          excluded = sym (absent-remove path ix.excluded_note_paths (ground (arith, e)));
        })
  | inl e ↦ rw (e, forget_excluded) (record { notes = refl; attachments = refl; excluded = refl })
]

attachment_left :
    (path : Text) (ix : VaultIndex)
    → Entries
        (forget_attachment path ix)
        ix.notes
        (remove path ix.attachments)
        ix.excluded_note_paths
unfolding forget_attachment
attachment_left path ix = elim (Option-cases (lookup path ix.attachments)) [
  | inl e ↦
      rw (e, forget_attachment)
        (record {
          notes = refl;
          attachments = sym (absent-remove path ix.attachments e);
          excluded = refl;
        })
  | inr (u, e) ↦
      rw (e, forget_attachment) (record { notes = refl; attachments = refl; excluded = refl })
]

pub note_left :
    (to_lowercase : Text → Text) (path : Text) (ix : VaultIndex)
    → Entries
        (remove_note_contributions to_lowercase path ix).0
        (remove path ix.notes)
        ix.attachments
        ix.excluded_note_paths
unfolding remove_note_contributions
note_left to_lowercase path ix = elim (Option-cases (lookup path ix.notes)) [
  | inl e ↦
      rw (e, remove_note_contributions)
        (record {
          notes = sym (absent-remove path ix.notes e);
          attachments = refl;
          excluded = refl;
        })
  | inr (u, e) ↦
      rw (e, remove_note_contributions)
        (record { notes = refl; attachments = refl; excluded = refl })
]

either-Entries :
    (b : Bool) (ix jx : VaultIndex) {n : Map NoteMetadata} {a : Map ℕ} {x : Set}
    → Entries ix n a x
    → Entries jx n a x
    → Entries (if b then ix else jx) n a x
either-Entries true ix jx h k = h
either-Entries false ix jx h k = k

module _ (env : Env) where
  forgotten_note_left :
      (path : Text) (ix : VaultIndex)
      → Entries
          (forget_note env path ix)
          (remove path ix.notes)
          ix.attachments
          ix.excluded_note_paths
  unfolding forget_note rebuild_backlinks
  forgotten_note_left path ix =
      let (left, old) = remove_note_contributions env.to_lowercase path ix in
      let kept = note_left env.to_lowercase path ix in
      elim (Option-cases old) [
        | inl e ↦ rw (e, forget_note) kept
        | inr (n, e) ↦
            rw (e, forget_note)
              (either-Entries left.source_batch _ _
                (record {
                  notes = kept.notes;
                  attachments = kept.attachments;
                  excluded = kept.excluded;
                })
                (record {
                  notes = kept.notes;
                  attachments = kept.attachments;
                  excluded = kept.excluded;
                }))
      ]

  -- Removing a file leaves the entries of all other paths and no entry for its own.
  pub remove_file-Entries :
      (path : Text) (ix : VaultIndex)
      → Entries
          (remove_file env path ix)
          (remove (logical_separators path) ix.notes)
          (remove (logical_separators path) ix.attachments)
          (remove (logical_separators path) ix.excluded_note_paths)
  unfolding remove_file
  remove_file-Entries path ix =
      let p = logical_separators path in
      let start : VaultIndex = record ix {
        source_revisions = remove p ix.source_revisions;
        waiting_for_lexical = remove p ix.waiting_for_lexical;
      } in
      let one = excluded_left p start in
      let two = attachment_left p (forget_excluded p start) in
      let three = forgotten_note_left p (forget_attachment p (forget_excluded p start)) in
      record {
        notes = three.notes ∙ ap (remove p) (two.notes ∙ one.notes);
        attachments = three.attachments ∙ (two.attachments ∙ ap (remove p) one.attachments);
        excluded = three.excluded ∙ (two.excluded ∙ one.excluded);
      }
