-- ===== src/Index/Entering.antt =====
-- The entries of an observed file (`update_observation` of src/vault/index.rs).
use obsidian_mcp.Common.{
  ℕ, ◌+◌, ◌-◌, true, false, not, Option, none, some, List, length, if◌then◌else◌, ◌==◌,
}
use obsidian_mcp.Text.{Text}
use obsidian_mcp.Errors.{Result, ok, err, other}
use obsidian_mcp.Map.{lookup, insert, remove, contains_key}
use obsidian_mcp.Models.{FileStat, NoteMetadata, WikiLink}
use obsidian_mcp.Exclude.{is_visible_path, allows_source}
use obsidian_mcp.Source.{source_revision}
use obsidian_mcp.Wikilink.{add_path}
use obsidian_mcp.Index.{Env, VaultIndex, remove_note_contributions, add_tags}
use obsidian_mcp.Index.Backlinks.{rebuild_backlinks, update_backlinks_for_file}
use obsidian_mcp.Index.Updates.{
  FileClass, classify, remove_file, add_excluded_file, observed_byte_totals,
}

-- `replace_note`, as far as the old contributions and the other kinds of entry go
unfoldable pub clear_entry : Env → Text → VaultIndex → VaultIndex × Option NoteMetadata
unfolding remove_note_contributions
clear_entry env path ix = remove_note_contributions env.to_lowercase path (record ix {
  waiting_for_lexical = remove path ix.waiting_for_lexical;
  excluded_note_paths = remove path ix.excluded_note_paths;
  attachments = remove path ix.attachments;
  attachment_bytes = elim (lookup path ix.attachments) as (λ _. ℕ) [
    | none ↦ ix.attachment_bytes
    | some size ↦ ix.attachment_bytes - size
  ];
})

-- the entry of the new metadata
unfoldable pub enter_note : Env → Text → NoteMetadata → ℕ → VaultIndex → VaultIndex
unfolding add_tags
enter_note env path metadata total_bytes ix =
    let notes = insert path metadata ix.notes in
    let tags = add_tags env.to_lowercase path metadata.tags ix.tags in
    record ix {
      notes = notes;
      tags = tags;
      stats = record {
        total_notes = length notes;
        total_files = length notes + length ix.attachments;
        total_tags = length tags;
        total_links = ix.stats.total_links + length metadata.links;
        vault_size_bytes = total_bytes;
        excluded_notes = length ix.excluded_note_paths;
      };
    }

-- `old_note.as_ref().map(|note| note.links.as_slice())`
abbrev pub links_before : Option NoteMetadata → Option (List WikiLink)
links_before none = none
links_before (some n) = some n.links

-- `replace_note`
unfoldable pub replace_note : Env → Text → NoteMetadata → ℕ → VaultIndex → VaultIndex
unfolding clear_entry enter_note add_path rebuild_backlinks update_backlinks_for_file
replace_note env path metadata total_bytes ix =
    let was_existing = contains_key path ix.notes in
    let (cleared, old_note) = clear_entry env path ix in
    let entered = enter_note env path metadata total_bytes cleared in
    let known : VaultIndex = if was_existing then entered else record entered {
      link_resolver = add_path env.nfc env.to_lowercase path entered.link_resolver;
    } in
    if known.source_batch
    then known
    else if was_existing
    then update_backlinks_for_file env path (links_before old_note) known
    else rebuild_backlinks env known

-- the arm of `update_observation` for a note
unfoldable pub observe_note :
    Env → Text → Option Text → FileStat → VaultIndex → VaultIndex × Result (Option Text)
unfolding replace_note add_excluded_file observed_byte_totals allows_source source_revision
observe_note env path none stat ix = (ix, err other)
observe_note env path (some content) stat ix =
    if not (allows_source env.eligible env.exclude path content)
    then (add_excluded_file env path ix, ok none)
    else elim (env.parse_note_metadata path content stat) [
      | err e ↦ (ix, err e)
      | ok n ↦ elim (observed_byte_totals path n.stat.size false ix) [
        | err e ↦ (ix, err e)
        | ok (total_size, b) ↦
            let replaced = replace_note env path n total_size ix in
            (
              record replaced {
                source_revisions =
                    insert path (source_revision env.digest content) replaced.source_revisions;
              },
              ok (some content),
            )
      ]
    ]

-- the arm for an attachment, if the size is new
unfoldable pub attach_changed :
    Env → Text → FileStat → VaultIndex → VaultIndex × Result (Option Text)
unfolding observed_byte_totals remove_file
attach_changed env path stat ix = elim (observed_byte_totals path stat.size true ix) [
  | err e ↦ (ix, err e)
  | ok (total_size, bytes) ↦
      let left = remove_file env path ix in
      (
        record left {
          attachments = insert path stat.size left.attachments;
          attachment_bytes = bytes;
          stats = record left.stats {
            total_files = left.stats.total_files + 1;
            vault_size_bytes = total_size;
          };
        },
        ok none,
      )
]

-- the arm for an attachment
unfoldable pub observe_attachment :
    Env → Text → FileStat → VaultIndex → VaultIndex × Result (Option Text)
unfolding attach_changed
observe_attachment env path stat ix = elim (lookup path ix.attachments) [
  | none ↦ attach_changed env path stat ix
  | some size ↦ if size == stat.size then (ix, ok none) else attach_changed env path stat ix
]

-- the arms of `update_observation`
unfoldable pub observe_by_class :
    FileClass → Env → Text → Option Text → FileStat → VaultIndex → VaultIndex × Result (Option Text)
unfolding observe_note add_excluded_file observe_attachment
observe_by_class FileClass.note env path content stat ix = observe_note env path content stat ix
observe_by_class FileClass.excluded env path content stat ix =
    (add_excluded_file env path ix, ok none)
observe_by_class FileClass.attachment env path content stat ix = observe_attachment env path stat ix

-- `update_observation`
unfoldable pub update_observation :
    Env → Text → Option Text → FileStat → VaultIndex → VaultIndex × Result (Option Text)
unfolding is_visible_path remove_file classify observe_by_class
update_observation env path content stat ix =
    if not (is_visible_path path)
    then (remove_file env path ix, ok none)
    else observe_by_class (classify env path) env path content stat ix
