-- ===== src/Index/Backlinks.antt =====
-- Backlinks, statistics and queries of src/vault/index.rs.
use obsidian_mcp.Common.{
  ◌+◌, Bool, false, not, ◌&&◌, ◌||◌, Option, none, some, List, [], ◌∷◌, ◌++◌, length, any,
  if◌then◌else◌,
}
use obsidian_mcp.Text.{Text, is_empty}
use obsidian_mcp.Map.{Map, Set, lookup, insert, remove, contains_key}
use obsidian_mcp.Map.Sums.{total}
use obsidian_mcp.Path.{logical_separators}
use obsidian_mcp.Models.{WikiLink, NoteMetadata}
use obsidian_mcp.Wikilink.{LinkResolver, resolve, is_resolved}
use obsidian_mcp.Index.{Env, VaultIndex, entry_add}

-- The note that a link leads to; a link with no target leads nowhere.
unfoldable pub leads_to : Env → LinkResolver → WikiLink → Option Text
leads_to env r link =
    if is_empty link.target then none else resolve env.nfc env.to_lowercase link.target r

-- the loop that adds the backlinks of one note
unfoldable pub link_all : Env → LinkResolver → Text → List WikiLink → Map Set → Map Set
unfolding leads_to
link_all env r source [] m = m
link_all env r source (link ∷ links) m = elim (leads_to env r link) [
  | none ↦ link_all env r source links m
  | some target ↦ link_all env r source links (entry_add target source m)
]

-- the loop of `rebuild_backlinks`
unfoldable pub link_notes : Env → LinkResolver → Map NoteMetadata → Map Set → Map Set
unfolding link_all
link_notes env r [] m = m
link_notes env r ((source, note) ∷ notes) m =
    link_notes env r notes (link_all env r source note.links m)

-- `rebuild_backlinks`
unfoldable pub rebuild_backlinks : Env → VaultIndex → VaultIndex
unfolding link_notes
rebuild_backlinks env ix = record ix { backlinks = link_notes env ix.link_resolver ix.notes [] }

-- the first loop of `update_backlinks_for_file`
unfoldable pub unlink_all : Env → LinkResolver → Text → List WikiLink → Map Set → Map Set
unfolding leads_to
unlink_all env r path [] m = m
unlink_all env r path (link ∷ links) m = elim (leads_to env r link) [
  | none ↦ unlink_all env r path links m
  | some target ↦ elim (lookup target m) [
    | none ↦ unlink_all env r path links m
    | some sources ↦
        let left = remove path sources in
        if is_empty left
        then unlink_all env r path links (remove target m)
        else unlink_all env r path links (insert target left m)
  ]
]

-- `update_backlinks_for_file`
unfoldable pub update_backlinks_for_file :
    Env → Text → Option (List WikiLink) → VaultIndex → VaultIndex
unfolding unlink_all link_all
update_backlinks_for_file env path old_links ix =
    let unlinked : Map Set = elim old_links [
      | none ↦ ix.backlinks
      | some old ↦ unlink_all env ix.link_resolver path old ix.backlinks
    ] in
    record ix {
      backlinks = elim (lookup path ix.notes) [
        | none ↦ unlinked
        | some note ↦ link_all env ix.link_resolver path note.links unlinked
      ];
    }

-- `recompute_stats`
unfoldable pub recompute_stats : VaultIndex → VaultIndex
recompute_stats ix = record ix {
  stats = record {
    total_notes = length ix.notes;
    total_files = length ix.notes + length ix.attachments;
    total_tags = length ix.tags;
    total_links = total (λ (n : NoteMetadata). length n.links) ix.notes;
    vault_size_bytes = total (λ (n : NoteMetadata). n.stat.size) ix.notes + ix.attachment_bytes;
    excluded_notes = length ix.excluded_note_paths;
  };
}

-- `tracks`
unfoldable pub tracks : Text → VaultIndex → Bool
unfolding logical_separators
tracks path ix =
    let p = logical_separators path in
    contains_key p ix.notes
    || (contains_key p ix.excluded_note_paths || contains_key p ix.attachments)

-- `get_note`
unfoldable pub get_note : Text → VaultIndex → Option NoteMetadata
unfolding logical_separators
get_note path ix = lookup (logical_separators path) ix.notes

-- one note in `broken_links`
unfoldable pub broken_of : Env → LinkResolver → Text → List WikiLink → List (Text × WikiLink)
unfolding is_resolved
broken_of env r path [] = []
broken_of env r path (link ∷ links) =
    let rest = broken_of env r path links in
    if is_empty link.target
    then rest
    else if not (is_resolved env.nfc env.to_lowercase link.target r)
    then (path, link) ∷ rest
    else rest

-- `broken_links`
unfoldable pub broken_links : Env → LinkResolver → Map NoteMetadata → List (Text × WikiLink)
unfolding broken_of
broken_links env r [] = []
broken_links env r ((k, note) ∷ notes) =
    broken_of env r note.path note.links ++ broken_links env r notes

-- the test of `orphan_notes`
unfoldable pub is_orphan : VaultIndex → Text → NoteMetadata → Bool
is_orphan ix path note =
    let has_incoming : Bool = elim (lookup path ix.backlinks) [
      | none ↦ false
      | some s ↦ not (is_empty s)
    ] in
    let has_outgoing = any (λ (l : WikiLink). not (is_empty l.target)) note.links in
    not has_incoming && not has_outgoing

-- `orphan_notes`
unfoldable pub orphan_notes : VaultIndex → Map NoteMetadata → List NoteMetadata
unfolding is_orphan
orphan_notes ix [] = []
orphan_notes ix ((path, note) ∷ notes) =
    let rest = orphan_notes ix notes in if is_orphan ix path note then note ∷ rest else rest
