-- ===== src/Index/Applying.antt =====
-- The counts after an observation is applied, and after an unchanged note is refreshed
-- (src/vault/index.rs).
use obsidian_mcp.Common.{
  ℕ, ◌≡◌, refl, subst, Bool, true, false, Option, none, some, length, arith, any, Bool-cases,
  Option-cases, inl, inr, ◌==◌,
}
use obsidian_mcp.Text.{Text, text_eq}
use obsidian_mcp.Text.Compare.{text_eq_sound}
use obsidian_mcp.Errors.{Result, ok, err, Result-cases}
use obsidian_mcp.Map.{lookup, insert, contains_key}
use obsidian_mcp.Map.Sums.{weight, count, insert-Unique, total-insert, length-insert, count-insert}
use obsidian_mcp.Path.{backslash}
use obsidian_mcp.Models.{NoteMetadata, FileStat}
use obsidian_mcp.Index.{Env, VaultIndex, empty_index}
use obsidian_mcp.Index.Updates.{observed_byte_totals}
use obsidian_mcp.Index.Observations.{
  Tantivy, is_limit, update_lexical, synchronize, finish_refresh, apply_observation,
  refresh_unchanged_note, same_revision, replace_lexical, known_after,
}
use obsidian_mcp.Index.Entering.{update_observation}
use obsidian_mcp.Index.Counted.{
  Counted, uncounted-Counted, either-Counted, size_of, links_of, itself,
}
use obsidian_mcp.Index.Entries.{Admitted, observed-Admitted}
use obsidian_mcp.Index.Counting.{remove_file-Counted}
use obsidian_mcp.Index.Outcomes.{update_observation-Counted}

pub empty_index-Counted : Counted empty_index
unfolding lookup
empty_index-Counted = record {
  one_note = tt;
  one_attachment = tt;
  one_excluded = tt;
  one_kind = λ k. omega arith;
  notes_counted = refl;
  files_counted = refl;
  tags_counted = refl;
  links_counted = refl;
  bytes_counted = refl;
  attachment_bytes_counted = refl;
  excluded_counted = refl;
  bytes_bounded = omega arith;
}

-- New file metadata for a note.
restat-Counted :
    (path : Text) (stat : FileStat) (n : NoteMetadata) (t b : ℕ) (ix : VaultIndex)
    → Counted ix
    → lookup path ix.notes ≡ some n
    → Admitted ix path stat.size 0 t b
    → Counted (record ix {
      notes = insert path (record n { stat = stat }) ix.notes;
      stats = record ix.stats { vault_size_bytes = t };
    })
restat-Counted path stat n t b ix c e a =
    let m : NoteMetadata = record n { stat = stat } in
    let one : count path ix.notes ≡ 1 = rw e refl in
    let size : weight size_of (lookup path ix.notes) ≡ n.stat.size = rw e refl in
    let links : weight links_of (lookup path ix.notes) ≡ length n.links = rw e refl in
    let no_file : weight itself (lookup path ix.attachments) ≡ 0 =
      ground (arith, c.one_kind path) in
    let same_length = length-insert path m ix.notes in
    record {
      one_note = insert-Unique path m ix.notes c.one_note;
      one_attachment = c.one_attachment;
      one_excluded = c.one_excluded;
      one_kind = λ k.
          let known : text_eq path k ≡ true → count k ix.notes ≡ 1 =
            λ h. subst (λ j. count j ix.notes ≡ 1) (text_eq_sound path k h) one in
          ground (arith, count-insert path k m ix.notes, known, c.one_kind k);
      notes_counted = omega (arith, same_length, one, c.notes_counted);
      files_counted = omega (arith, same_length, one, c.files_counted);
      tags_counted = c.tags_counted;
      links_counted = omega (arith, links, total-insert links_of path m ix.notes, c.links_counted);
      bytes_counted =
          omega
            (arith, size, no_file, total-insert size_of path m ix.notes, a.whole, c.bytes_counted);
      attachment_bytes_counted = c.attachment_bytes_counted;
      excluded_counted = c.excluded_counted;
      bytes_bounded = a.bounded;
    }

module _ (env : Env) where
  pub refresh-Counted :
      (path revision : Text) (stat : FileStat) (ix : VaultIndex)
      → Counted ix
      → Counted (refresh_unchanged_note path revision stat ix).0
  unfolding refresh_unchanged_note
  refresh-Counted path revision stat ix c = elim (Option-cases (lookup path ix.notes)) [
    | inl e ↦ rw (e, refresh_unchanged_note) c
    | inr (n, e) ↦ elim (Bool-cases (same_revision path revision ix)) [
      | inr f ↦ rw (e, f, refresh_unchanged_note) c
      | inl f ↦ elim (Result-cases (observed_byte_totals path stat.size false ix)) [
        | inr (x, g) ↦ rw (e, f, g, refresh_unchanged_note) (uncounted-Counted _ _ _ _ _ _ c)
        | inl (tb, g) ↦
            rw (e, f, g, refresh_unchanged_note)
              (restat-Counted path stat n tb.0 tb.1 ix c e
                (observed-Admitted path stat.size false ix c g))
      ]
    ]
  ]

  pub lexical-Counted :
      (path : Text) (was_note : Bool) (update : Result (Option Text)) (tv : Option Tantivy)
      (enabled : Bool) (ix : VaultIndex)
      → Counted ix
      → Counted (update_lexical path was_note update tv enabled ix).0
  unfolding update_lexical replace_lexical
  lexical-Counted path was_note update none enabled ix c = c
  lexical-Counted path was_note (err e) (some tv) enabled ix c = c
  lexical-Counted path was_note (ok none) (some tv) enabled ix c = c
  lexical-Counted path was_note (ok (some content)) (some tv) enabled ix c =
      elim (Option-cases (lookup path ix.notes)) [
        | inl e ↦ rw (e, update_lexical) c
        | inr (n, e) ↦ elim (Result-cases (tv.replace_document path n content)) [
          | inr (x, f) ↦ rw (e, f, update_lexical, replace_lexical) c
          | inl (stamp, f) ↦
              rw (e, f, update_lexical, replace_lexical)
                (either-Counted enabled _ _ (uncounted-Counted _ _ _ _ _ _ c) c)
        ]
      ]

  pub known-Counted :
      {A : Type 0} (r : Result A) (path : Text) (ix : VaultIndex)
      → Counted ix
      → Counted (known_after env r path ix)
  unfolding known_after
  known-Counted (ok a) path ix c = c
  known-Counted (err e) path ix c = remove_file-Counted env path ix c

  synchronize-Counted :
      (path : Text) (was_note : Bool) (update : Result (Option Text)) (tv : Option Tantivy)
      (enabled : Bool) (ix : VaultIndex)
      → Counted ix
      → Counted (synchronize env path was_note update tv enabled ix).0
  unfolding synchronize
  synchronize-Counted path was_note update tv enabled ix c =
      let known = known-Counted update path ix c in
      let staged = lexical-Counted path was_note update tv enabled _ known in
      known-Counted
        (update_lexical path was_note update tv enabled (known_after env update path ix)).1 path _
        staged

  pub finish_refresh-Counted :
      (path : Text) (was_note : Bool) (update : Result (Option Text)) (tv : Option Tantivy)
      (enabled : Bool) (ix : VaultIndex)
      → Counted ix
      → Counted (finish_refresh env path was_note update tv enabled ix).0
  unfolding finish_refresh
  finish_refresh-Counted path was_note (ok o) tv enabled ix c =
      synchronize-Counted path was_note (ok o) tv enabled ix c
  finish_refresh-Counted path was_note (err e) tv enabled ix c = elim (Bool-cases (is_limit e)) [
    | inl h ↦ rw h (uncounted-Counted _ _ _ _ _ _ c)
    | inr h ↦ rw h (synchronize-Counted path was_note (err e) tv enabled ix c)
  ]

  pub apply_observation-Counted :
      (tv : Option Tantivy) (enabled : Bool) (path : Text) (content : Option Text) (stat : FileStat)
      (ix : VaultIndex)
      → any (λ c. c == backslash) path ≡ false
      → Counted ix
      → Counted (apply_observation env tv enabled path content stat ix).0
  unfolding apply_observation
  apply_observation-Counted tv enabled path content stat ix plain c =
      finish_refresh-Counted path (contains_key path ix.notes)
        (update_observation env path content stat ix).1 tv enabled _
        (update_observation-Counted env path plain content stat ix c)
