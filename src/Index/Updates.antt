-- ===== src/Index/Updates.antt =====
-- The operations that change an index (src/vault/index.rs).
use obsidian_mcp.Common.{
  ℕ, ◌+◌, ◌-◌, Bool, true, false, not, ◌&&◌, Option, none, some, ltb, and_then, if◌then◌else◌,
}
use obsidian_mcp.Text.{Text, codes, is_empty, rsplit_once, eq_ignore_ascii_case}
use obsidian_mcp.Errors.{
  VaultError, Result, ok, storage, resource_limit, not_dispatched, ◌>>=◌, ok_or,
}
use obsidian_mcp.Map.{lookup, remove, contains_key, add, get_or}
use obsidian_mcp.Path.{logical_separators, logical_file_name}
use obsidian_mcp.Exclude.{is_visible_path, is_excluded}
use obsidian_mcp.Wikilink.{remove_path}
use obsidian_mcp.Index.{Env, VaultIndex, remove_note_contributions}
use obsidian_mcp.Index.Backlinks.{rebuild_backlinks}

-- `is_markdown`
unfoldable pub is_markdown : Text → Bool
unfolding logical_file_name
is_markdown path = elim (and_then (logical_file_name path) (rsplit_once b'.')) [
  | none ↦ false
  | some (stem, ext) ↦ not (is_empty stem) && eq_ignore_ascii_case ext (codes "md")
]

pub data FileClass : Type 0 where
  note excluded attachment : FileClass

-- `classify`
unfoldable pub classify : Env → Text → FileClass
unfolding is_markdown is_excluded
classify env path =
    if not (is_markdown path)
    then attachment
    else if is_excluded env.exclude path
    then excluded
    else note

-- `begin_source_batch`
unfoldable pub begin_source_batch : VaultIndex → VaultIndex
begin_source_batch ix = record ix { source_batch = true }

-- `finish_source_batch`
unfoldable pub finish_source_batch : Env → VaultIndex → VaultIndex
unfolding rebuild_backlinks
finish_source_batch env ix =
    if ix.source_batch then rebuild_backlinks env (record ix { source_batch = false }) else ix

-- the first statements of `remove_file`, for a path with logical separators
unfoldable pub forget_excluded : Text → VaultIndex → VaultIndex
forget_excluded path ix =
    if contains_key path ix.excluded_note_paths
    then record ix {
      excluded_note_paths = remove path ix.excluded_note_paths;
      stats = record ix.stats { excluded_notes = ix.stats.excluded_notes - 1 };
    }
    else ix

unfoldable pub forget_attachment : Text → VaultIndex → VaultIndex
forget_attachment path ix = elim (lookup path ix.attachments) [
  | none ↦ ix
  | some size ↦ record ix {
    attachments = remove path ix.attachments;
    attachment_bytes = ix.attachment_bytes - size;
    stats = record ix.stats {
      total_files = ix.stats.total_files - 1;
      vault_size_bytes = ix.stats.vault_size_bytes - size;
    };
  }
]

-- the last statement of `remove_file`
unfoldable pub forget_note : Env → Text → VaultIndex → VaultIndex
unfolding remove_note_contributions remove_path rebuild_backlinks
forget_note env path ix =
    let (left, old) = remove_note_contributions env.to_lowercase path ix in
    elim old [
      | none ↦ left
      | some n ↦
          let unlinked = record left {
            link_resolver = remove_path env.nfc env.to_lowercase path left.link_resolver;
            backlinks = remove path left.backlinks;
          } in
          if left.source_batch then unlinked else rebuild_backlinks env unlinked
    ]

-- `remove_file`
unfoldable pub remove_file : Env → Text → VaultIndex → VaultIndex
unfolding logical_separators forget_excluded forget_attachment forget_note
remove_file env path ix =
    let p = logical_separators path in
    let start = record ix {
      source_revisions = remove p ix.source_revisions;
      waiting_for_lexical = remove p ix.waiting_for_lexical;
    } in
    forget_note env p (forget_attachment p (forget_excluded p start))

-- `add_excluded_file`
unfoldable pub add_excluded_file : Env → Text → VaultIndex → VaultIndex
unfolding logical_separators remove_file is_visible_path is_markdown
add_excluded_file env path ix =
    let p = logical_separators path in
    let left = remove_file env p ix in
    if contains_key p ix.excluded_note_paths
    then ix
    else if is_visible_path p && is_markdown p
    then record left {
      excluded_note_paths = add p left.excluded_note_paths;
      stats = record left.stats { excluded_notes = left.stats.excluded_notes + 1 };
    }
    else left

-- `checked_sub` and `checked_add` of 64-bit integers
abbrev pub checked_sub : ℕ → ℕ → Option ℕ
checked_sub a b = if ltb a b then none else some (a - b)

abbrev pub checked_add : ℕ → ℕ → Option ℕ
checked_add a b = if ltb (a + b) 18446744073709551616 then some (a + b) else none

abbrev pub inventory_size_error : VaultError
inventory_size_error = storage resource_limit not_dispatched

-- `observed_byte_totals`
unfoldable pub observed_byte_totals : Text → ℕ → Bool → VaultIndex → Result (ℕ × ℕ)
observed_byte_totals path size is_attachment ix =
    let old_attachment = get_or 0 path ix.attachments in
    let old_size : ℕ = elim (lookup path ix.notes) [
      | none ↦ old_attachment
      | some n ↦ n.stat.size
    ] in
    ok_or inventory_size_error (
      and_then (checked_sub ix.stats.vault_size_bytes old_size)
        (λ remaining. checked_add remaining size))
    >>= λ total_size.
        ok_or inventory_size_error (
          and_then (checked_sub ix.attachment_bytes old_attachment)
            (λ remaining. checked_add remaining (if is_attachment then size else 0)))
        >>= λ attachment_bytes. ok (total_size, attachment_bytes)
