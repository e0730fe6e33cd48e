-- ===== src/Index/Observations.antt =====
-- Applying an observation of a file to an index (src/vault/index.rs). The full-text index is a
-- third-party engine: `Tantivy` has its answers.
use obsidian_mcp.Common.{ℕ, Bool, true, false, not, Option, none, some, if◌then◌else◌}
use obsidian_mcp.Text.{Text, text_eq}
use obsidian_mcp.Errors.{VaultError, Result, ok, err, ◌>>=◌, other, storage, resource_limit}
use obsidian_mcp.Map.{lookup, insert, remove, contains_key}
use obsidian_mcp.Models.{FileStat, NoteMetadata}
use obsidian_mcp.Index.{Env, VaultIndex}
use obsidian_mcp.Index.Updates.{remove_file, observed_byte_totals}
use obsidian_mcp.Index.Entering.{update_observation}

-- What the full-text index answers.
pub record Tantivy : Type 0 where
  pub replace_document : Text → NoteMetadata → Text → Result ℕ
  pub remove_file_batch : Text → Result (Unit {0})

abbrev pub is_limit : VaultError → Bool
is_limit (storage resource_limit o) = true
is_limit e = false

-- the removal of the document of a path that was a note
unfoldable pub remove_document : Text → Bool → Tantivy → Result Bool
remove_document path was_note tv =
    if was_note then (tv.remove_file_batch path >>= λ u. ok true) else ok false

-- the replacement of the document of a note, with the stamp that its embedding waits for
unfoldable pub replace_lexical :
    Text → NoteMetadata → Text → Tantivy → Bool → VaultIndex → VaultIndex × Result Bool
replace_lexical path n content tv enabled ix = elim (tv.replace_document path n content) [
  | err e ↦ (ix, err e)
  | ok stamp ↦ (
    (if enabled
        then record ix { waiting_for_lexical = insert path stamp ix.waiting_for_lexical }
        else ix),
    ok true,
  )
]

-- the document that `finish_refresh` replaces or removes
unfoldable pub update_lexical :
    Text
    → Bool
    → Result (Option Text)
    → Option Tantivy
    → Bool
    → VaultIndex
    → VaultIndex × Result Bool
unfolding remove_document replace_lexical
update_lexical path was_note update none enabled ix = (ix, ok false)
update_lexical path was_note (err e) (some tv) enabled ix = (ix, remove_document path was_note tv)
update_lexical path was_note (ok none) (some tv) enabled ix = (ix, remove_document path was_note tv)
update_lexical path was_note (ok (some content)) (some tv) enabled ix =
    elim (lookup path ix.notes) [
      | none ↦ (ix, remove_document path was_note tv)
      | some n ↦ replace_lexical path n content tv enabled ix
    ]

-- the two results of `finish_refresh` as one
abbrev pub join_results : Result (Option Text) → Result Bool → Result Bool
join_results (err e) (err c) = err other
join_results (err e) (ok b) = err e
join_results (ok o) lexical = lexical

-- a failure takes the file out of the index
unfoldable pub known_after : {A : Type 0} → Env → Result A → Text → VaultIndex → VaultIndex
unfolding remove_file
known_after env (ok a) path ix = ix
known_after env (err e) path ix = remove_file env path ix

-- `finish_refresh` after the test for the resource limit
unfoldable pub synchronize :
    Env
    → Text
    → Bool
    → Result (Option Text)
    → Option Tantivy
    → Bool
    → VaultIndex
    → VaultIndex × Result Bool
unfolding update_lexical known_after
synchronize env path was_note update tv enabled ix =
    let (staged, lexical) =
      update_lexical path was_note update tv enabled (known_after env update path ix) in
    (known_after env lexical path staged, join_results update lexical)

-- `finish_refresh`
unfoldable pub finish_refresh :
    Env
    → Text
    → Bool
    → Result (Option Text)
    → Option Tantivy
    → Bool
    → VaultIndex
    → VaultIndex × Result Bool
unfolding synchronize
finish_refresh env path was_note (ok o) tv enabled ix =
    synchronize env path was_note (ok o) tv enabled ix
finish_refresh env path was_note (err e) tv enabled ix =
    if is_limit e
    then (record ix { source_revisions = remove path ix.source_revisions }, err e)
    else synchronize env path was_note (err e) tv enabled ix

-- `apply_observation`
unfoldable pub apply_observation :
    Env
    → Option Tantivy
    → Bool
    → Text
    → Option Text
    → FileStat
    → VaultIndex
    → VaultIndex × Result Bool
unfolding update_observation finish_refresh
apply_observation env tv enabled path content stat ix =
    let was_note = contains_key path ix.notes in
    let (updated, update) = update_observation env path content stat ix in
    finish_refresh env path was_note update tv enabled updated

-- whether the admitted revision of a path is the observed one
abbrev pub same_revision : Text → Text → VaultIndex → Bool
same_revision path revision ix = elim (lookup path ix.source_revisions) [
  | none ↦ false
  | some r ↦ text_eq r revision
]

-- `refresh_unchanged_note`
unfoldable pub refresh_unchanged_note :
    Text → Text → FileStat → VaultIndex → VaultIndex × Result Bool
unfolding observed_byte_totals
refresh_unchanged_note path revision stat ix = elim (lookup path ix.notes) [
  | none ↦ (ix, ok false)
  | some n ↦
      if not (same_revision path revision ix)
      then (ix, ok false)
      else elim (observed_byte_totals path stat.size false ix) [
        | err e ↦ (record ix { source_revisions = remove path ix.source_revisions }, err e)
        | ok (total_size, b) ↦ (
          record ix {
            notes = insert path (record n { stat = stat }) ix.notes;
            stats = record ix.stats { vault_size_bytes = total_size };
          },
          ok true,
        )
      ]
]
