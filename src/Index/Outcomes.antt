-- ===== src/Index/Outcomes.antt =====
-- An observation keeps the statistics of an index right, whatever comes of it.
use obsidian_mcp.Common.{
  ℕ, ◌+◌, ◌-◌, ◌≡◌, refl, subst, true, false, Option, none, some, arith, any, Bool-cases,
  Option-cases, inl, inr, ◌==◌,
}
use obsidian_mcp.Text.{Text}
use obsidian_mcp.Errors.{Result-cases}
use obsidian_mcp.Map.{lookup, remove, contains_key}
use obsidian_mcp.Map.Sums.{weight, total-remove}
use obsidian_mcp.Path.{backslash}
use obsidian_mcp.Models.{NoteMetadata, FileStat}
use obsidian_mcp.Exclude.{is_visible_path, allows_source}
use obsidian_mcp.Index.{Env, VaultIndex, remove_note_contributions}
use obsidian_mcp.Index.Updates.{FileClass, classify, remove_file, observed_byte_totals}
use obsidian_mcp.Index.Entering.{
  clear_entry, enter_note, replace_note, links_before, attach_changed, observe_by_class,
  observe_note, observe_attachment, update_observation,
}
use obsidian_mcp.Index.Counted.{Counted, uncounted-Counted, either-Counted, links_of, itself}
use obsidian_mcp.Index.Entries.{Admitted, observed-Admitted, remove_file-Vacant, removed-Vacant}
use obsidian_mcp.Index.Removing.{Entries, remove_file-Entries, plain_path, note_left}
use obsidian_mcp.Index.Observing.{attached-Counted, entered-Counted}
use obsidian_mcp.Index.Counting.{
  rebuild-Counted, update_backlinks-Counted, remove_file-Counted, add_excluded_file-Counted,
}

module _ (env : Env) (path : Text) where
  -- the numbers that stay when the note of a path goes
  note_gone :
      (ix : VaultIndex)
      → ((remove_note_contributions env.to_lowercase path ix).0.attachment_bytes
          ≡ ix.attachment_bytes)
        × ((remove_note_contributions env.to_lowercase path ix).0.stats.total_links
            ≡ ix.stats.total_links - weight links_of (lookup path ix.notes))
  unfolding remove_note_contributions
  note_gone ix = elim (Option-cases (lookup path ix.notes)) [
    | inl e ↦ rw (e, remove_note_contributions) (refl, omega arith)
    | inr (n, e) ↦ rw (e, remove_note_contributions) (refl, refl)
  ]

  less_bytes :
      (ix : VaultIndex)
      → Counted ix
      → (elim (lookup path ix.attachments) as (λ _. ℕ) [
        | none ↦ ix.attachment_bytes
        | some size ↦ ix.attachment_bytes - size
      ])
          + weight itself (lookup path ix.attachments)
        ≡ ix.attachment_bytes
  less_bytes ix c =
      ground (
        arith,
        total-remove itself path ix.attachments c.one_attachment,
        c.attachment_bytes_counted,
      )

  entered_note-Counted :
      (n : NoteMetadata) (t b : ℕ) (ix : VaultIndex)
      → Counted ix
      → Admitted ix path n.stat.size 0 t b
      → Counted (enter_note env path n t (clear_entry env path ix).0)
  unfolding clear_entry
  entered_note-Counted n t b ix c a =
      let start : VaultIndex = record ix {
        waiting_for_lexical = remove path ix.waiting_for_lexical;
        excluded_note_paths = remove path ix.excluded_note_paths;
        attachments = remove path ix.attachments;
        attachment_bytes = elim (lookup path ix.attachments) as (λ _. ℕ) [
          | none ↦ ix.attachment_bytes
          | some size ↦ ix.attachment_bytes - size
        ];
      } in
      let left = (clear_entry env path ix).0 in
      let e = note_left env.to_lowercase path start in
      let (same, fewer) = note_gone start in
      let part : left.attachment_bytes + weight itself (lookup path ix.attachments)
          ≡ ix.attachment_bytes =
        omega (arith, same, less_bytes ix c) in
      let links : left.stats.total_links + weight links_of (lookup path ix.notes)
          ≡ ix.stats.total_links =
        omega (arith, fewer, total-remove links_of path ix.notes c.one_note, c.links_counted) in
      entered-Counted env path n t ix left c
        (removed-Vacant path left ix.notes ix.attachments ix.excluded_note_paths e) e part links
        (record { whole = a.whole; part = omega (arith, part, a.part); bounded = a.bounded })

  replace_note-Counted :
      (n : NoteMetadata) (t b : ℕ) (ix : VaultIndex)
      → Counted ix
      → Admitted ix path n.stat.size 0 t b
      → Counted (replace_note env path n t ix)
  unfolding replace_note
  replace_note-Counted n t b ix c a =
      let entered = entered_note-Counted n t b ix c a in
      let known =
        either-Counted (contains_key path ix.notes) _ _ entered
          (uncounted-Counted _ _ _ _ _ _ entered) in
      either-Counted _ _ _ known (
        either-Counted (contains_key path ix.notes) _ _
          (update_backlinks-Counted env path (links_before (clear_entry env path ix).1) _ known)
          (rebuild-Counted env _ known))

  observe_note-Counted :
      (content : Option Text) (stat : FileStat) (ix : VaultIndex)
      → Counted ix
      → Counted (observe_note env path content stat ix).0
  unfolding observe_note
  observe_note-Counted none stat ix c = c
  observe_note-Counted (some content) stat ix c =
      elim (Bool-cases (allows_source env.eligible env.exclude path content)) [
        | inr e ↦ rw e (add_excluded_file-Counted env path ix c)
        | inl e ↦ elim (Result-cases (env.parse_note_metadata path content stat)) [
          | inr (x, f) ↦ rw (e, f) c
          | inl (n, f) ↦ elim (Result-cases (observed_byte_totals path n.stat.size false ix)) [
            | inr (x, g) ↦ rw (e, f, g) c
            | inl (tb, g) ↦
                rw (e, f, g)
                  (uncounted-Counted _ _ _ _ _ _ (
                    replace_note-Counted n tb.0 tb.1 ix c
                      (observed-Admitted path n.stat.size false ix c g)))
          ]
        ]
      ]

  module _ (plain : any (λ c. c == backslash) path ≡ false) where
    changed :
        (stat : FileStat) (ix : VaultIndex)
        → Counted ix
        → Counted (attach_changed env path stat ix).0
    unfolding attach_changed
    changed stat ix c = elim (Result-cases (observed_byte_totals path stat.size true ix)) [
      | inr (x, g) ↦ rw (g, attach_changed) c
      | inl (tb, g) ↦
          rw (g, attach_changed)
            (attached-Counted path stat.size tb.0 tb.1 ix (remove_file env path ix) c
              (remove_file-Counted env path ix c) (remove_file-Vacant env path ix plain)
              (subst
                (λ p.
                  Entries (remove_file env path ix) (remove p ix.notes) (remove p ix.attachments)
                    (remove p ix.excluded_note_paths))
                (plain_path path plain) (remove_file-Entries env path ix))
              (observed-Admitted path stat.size true ix c g))
    ]

    observe_attachment-Counted :
        (stat : FileStat) (ix : VaultIndex)
        → Counted ix
        → Counted (observe_attachment env path stat ix).0
    unfolding observe_attachment
    observe_attachment-Counted stat ix c = elim (Option-cases (lookup path ix.attachments)) [
      | inl e ↦ rw (e, observe_attachment) (changed stat ix c)
      | inr (size, e) ↦
          rw (e, observe_attachment)
            (elim (Bool-cases (size == stat.size)) [
              | inl same ↦ rw same c
              | inr new ↦ rw new (changed stat ix c)
            ])
    ]

    classified :
        (kind : FileClass) (content : Option Text) (stat : FileStat) (ix : VaultIndex)
        → Counted ix
        → Counted (observe_by_class kind env path content stat ix).0
    unfolding observe_by_class
    classified FileClass.note content stat ix c = observe_note-Counted content stat ix c
    classified FileClass.excluded content stat ix c = add_excluded_file-Counted env path ix c
    classified FileClass.attachment content stat ix c = observe_attachment-Counted stat ix c

    -- An observation keeps the statistics right, whatever comes of it.
    pub update_observation-Counted :
        (content : Option Text) (stat : FileStat) (ix : VaultIndex)
        → Counted ix
        → Counted (update_observation env path content stat ix).0
    unfolding update_observation
    update_observation-Counted content stat ix c = elim (Bool-cases (is_visible_path path)) [
      | inr e ↦ rw e (remove_file-Counted env path ix c)
      | inl e ↦ rw e (classified (classify env path) content stat ix c)
    ]
