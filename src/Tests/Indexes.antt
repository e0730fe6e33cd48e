-- ===== src/Tests/Indexes.antt =====
-- Runs of src/vault/index.rs, with a parser that finds the tag `t` and a link to `b` in every note.
use obsidian_mcp.Common.{
  any, ◌&&◌, leb, ℕ, ◌+◌, ◌≤◌, ◌<◌, ◌≡◌, refl, true, false, none, some, [], ◌∷◌,
}
use obsidian_mcp.Text.{Text, text_eq, codes, to_ascii_lowercase}
use obsidian_mcp.Errors.{ok, err}
use obsidian_mcp.Map.{contains_key, lookup, insert, remove}
use obsidian_mcp.Map.Sums.{count, total}
use obsidian_mcp.Wikilink.{resolve, normalize_target, stem_key}
use obsidian_mcp.Path.{logical_separators}
use obsidian_mcp.Models.{FileStat}
use obsidian_mcp.Index.{Env, VaultIndex, empty_index}
use obsidian_mcp.Index.Backlinks.{recompute_stats}
use obsidian_mcp.Index.Updates.{remove_file, inventory_size_error}
use obsidian_mcp.Index.Observations.{apply_observation}
use obsidian_mcp.Index.Entering.{update_observation}
use obsidian_mcp.Index.Counted.{size_of, itself}
use obsidian_mcp.Index.Removing.{Entries, remove_file-Entries}
use obsidian_mcp.Index.Linked.{has, links_to}
use obsidian_mcp.Index.Reached.{
  Reachable, starts, observes, reached-recompute_stats, reached_one_kind, reached_bytes,
}
use obsidian_mcp.Index.Navigable.{reached-backlinks}
use obsidian_mcp.Index.Queries.{publish_embedding_upserts, any-publish_embedding_upserts}
use obsidian_mcp.Index.Refusals.{apply_observation_limit}

abbrev file : ℕ → FileStat
file n = record { size = n; created = none; modified = none }

abbrev env : Env
env = record {
  nfc = λ s. s;
  to_lowercase = to_ascii_lowercase;
  digest = λ s. s;
  exclude = record { set = λ s. false; patterns = []; private_memory = false };
  eligible = λ p c. true;
  parse_note_metadata = λ p c stat. ok (record {
    path = p;
    title = c;
    tags = codes "t" ∷ [];
    frontmatter = none;
    headings = [];
    links =
        record {
          raw = codes "[[b]]";
          target = codes "b";
          heading = none;
          block_ref = none;
          alias = none;
          line = 0;
        }
        ∷ [];
    block_refs = [];
    stat = stat;
  });
}

abbrev one_note : VaultIndex
one_note =
    (apply_observation env none false (codes "a.md") (some (codes "x")) (file 3) empty_index).0

abbrev two_notes : VaultIndex
two_notes = (apply_observation env none false (codes "b.md") (some (codes "y")) (file 4) one_note).0

two_notes_reached : Reachable env two_notes
two_notes_reached =
    observes none false (codes "b.md") (some (codes "y")) (file 4) one_note refl
      (observes none false (codes "a.md") (some (codes "x")) (file 3) empty_index refl starts)

two_notes_counted : two_notes.stats.total_links ≡ 2
unfolding apply_observation lookup insert remove
two_notes_counted = refl

two_notes_linked : has (codes "b.md") (codes "a.md") two_notes.backlinks ≡ true
unfolding apply_observation lookup insert remove resolve normalize_target stem_key
two_notes_linked = refl

two_notes_live : two_notes.source_batch ≡ false
unfolding apply_observation lookup insert remove
two_notes_live = refl

reached-recompute_stats_example : (recompute_stats two_notes).stats ≡ two_notes.stats
reached-recompute_stats_example = reached-recompute_stats env two_notes_reached

reached_one_kind_example :
    count (codes "a.md") two_notes.notes
      + (count (codes "a.md") two_notes.attachments
          + count (codes "a.md") two_notes.excluded_note_paths)
    ≤ 1
reached_one_kind_example = reached_one_kind env (codes "a.md") two_notes_reached

reached_bytes_example :
    total size_of two_notes.notes + total itself two_notes.attachments < 18446744073709551616
reached_bytes_example = reached_bytes env two_notes_reached

reached-backlinks_example :
    has (codes "b.md") (codes "a.md") two_notes.backlinks
    ≡ links_to env two_notes.link_resolver (codes "b.md") (codes "a.md") two_notes.notes
reached-backlinks_example =
    reached-backlinks env (codes "b.md") (codes "a.md") two_notes_reached two_notes_live

remove_file-Entries_example :
    Entries
      (remove_file env (codes "a.md") two_notes)
      (remove (logical_separators (codes "a.md")) two_notes.notes)
      (remove (logical_separators (codes "a.md")) two_notes.attachments)
      (remove (logical_separators (codes "a.md")) two_notes.excluded_note_paths)
remove_file-Entries_example = remove_file-Entries env (codes "a.md") two_notes

abbrev full_index : VaultIndex
full_index =
    (apply_observation env none false (codes "d.png") none (file 18446744073709551615)
      empty_index).0

apply_observation_limit_example :
    apply_observation env none false (codes "c.png") none (file 1) full_index ≡ (
      record full_index { source_revisions = remove (codes "c.png") full_index.source_revisions },
      err inventory_size_error,
    )
unfolding update_observation apply_observation lookup insert remove
apply_observation_limit_example =
    apply_observation_limit env (codes "c.png") none false none (file 1) full_index
      inventory_size_error refl refl

abbrev waiting_index : VaultIndex
waiting_index = record two_notes {
  waiting_for_lexical = (codes "b.md", 7) ∷ (codes "a.md", 5) ∷ (codes "gone.md", 1) ∷ [];
}

released : (publish_embedding_upserts 7 waiting_index).1 ≡ codes "a.md" ∷ codes "b.md" ∷ []
unfolding publish_embedding_upserts apply_observation lookup insert remove
released = refl

any-publish_embedding_upserts_example :
    any (text_eq (codes "a.md")) ((publish_embedding_upserts 6 waiting_index).1)
    ≡ any
        (λ (e : Text × ℕ).
          (text_eq (codes "a.md") (e.0) && contains_key (e.0) waiting_index.notes) && leb (e.1) 6)
        waiting_index.waiting_for_lexical
any-publish_embedding_upserts_example = any-publish_embedding_upserts (codes "a.md") 6 waiting_index
