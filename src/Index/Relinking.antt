-- ===== src/Index/Relinking.antt =====
-- The backlinks after an observation is applied (src/vault/index.rs).
use obsidian_mcp.Common.{
  ◌≡◌, refl, sym, ◌∙◌, subst, Bool, true, false, ◌&&◌, Option, none, some, Bool-cases, Option-cases,
  inl, inr, ◌==◌,
}
use obsidian_mcp.Text.{Text, text_eq}
use obsidian_mcp.Text.Compare.{text_eq_sound}
use obsidian_mcp.Errors.{Result, ok, err, Result-cases}
use obsidian_mcp.Map.{lookup, insert, contains_key}
use obsidian_mcp.Map.Laws.{lookup-insert}
use obsidian_mcp.Path.{logical_separators}
use obsidian_mcp.Models.{NoteMetadata, FileStat}
use obsidian_mcp.Exclude.{is_visible_path, allows_source}
use obsidian_mcp.Index.{Env, VaultIndex}
use obsidian_mcp.Index.Updates.{
  FileClass, classify, is_markdown, add_excluded_file, observed_byte_totals,
}
use obsidian_mcp.Index.Observations.{
  Tantivy, is_limit, update_lexical, replace_lexical, known_after, synchronize, finish_refresh,
  refresh_unchanged_note, same_revision,
}
use obsidian_mcp.Index.Entering.{
  observe_note, attach_changed, observe_attachment, observe_by_class, update_observation,
}
use obsidian_mcp.Index.Counted.{Counted}
use obsidian_mcp.Index.Linked.{links_to}
use obsidian_mcp.Index.Graph.{Ready, either-Ready, remove_file-Ready, replace_note-Ready}
use obsidian_mcp.Index.Applying.{lexical-Counted, known-Counted}

module _ (env : Env) (path : Text) where
  pub excluded-Ready :
      (ix : VaultIndex) → Counted ix → Ready env ix → Ready env (add_excluded_file env path ix)
  unfolding add_excluded_file
  excluded-Ready ix c r =
      let p = logical_separators path in
      let left = remove_file-Ready env p ix c r in
      either-Ready env (contains_key p ix.excluded_note_paths) _ _ (λ _. r)
        (λ _.
          either-Ready env (is_visible_path p && is_markdown p) _ _
            (λ _ live. record { linked = (left live).linked }) (λ _. left))

  note-Ready :
      (content : Option Text) (stat : FileStat) (ix : VaultIndex)
      → Counted ix
      → Ready env ix
      → Ready env (observe_note env path content stat ix).0
  unfolding observe_note
  note-Ready none stat ix c r = r
  note-Ready (some content) stat ix c r =
      elim (Bool-cases (allows_source env.eligible env.exclude path content)) [
        | inr e ↦ rw e (excluded-Ready ix c r)
        | inl e ↦ elim (Result-cases (env.parse_note_metadata path content stat)) [
          | inr (x, f) ↦ rw (e, f) r
          | inl (n, f) ↦ elim (Result-cases (observed_byte_totals path n.stat.size false ix)) [
            | inr (x, g) ↦ rw (e, f, g) r
            | inl (tb, g) ↦
                let replaced = replace_note-Ready env path n tb.0 ix c r in
                rw (e, f, g) (λ live. record { linked = (replaced live).linked })
          ]
        ]
      ]

  changed-Ready :
      (stat : FileStat) (ix : VaultIndex)
      → Counted ix
      → Ready env ix
      → Ready env (attach_changed env path stat ix).0
  unfolding attach_changed
  changed-Ready stat ix c r = elim (Result-cases (observed_byte_totals path stat.size true ix)) [
    | inr (x, g) ↦ rw (g, attach_changed) r
    | inl (tb, g) ↦
        let left = remove_file-Ready env path ix c r in
        rw (g, attach_changed) (λ live. record { linked = (left live).linked })
  ]

  attachment-Ready :
      (stat : FileStat) (ix : VaultIndex)
      → Counted ix
      → Ready env ix
      → Ready env (observe_attachment env path stat ix).0
  unfolding observe_attachment
  attachment-Ready stat ix c r = elim (Option-cases (lookup path ix.attachments)) [
    | inl e ↦ rw (e, observe_attachment) (changed-Ready stat ix c r)
    | inr (size, e) ↦
        rw (e, observe_attachment)
          (elim (Bool-cases (size == stat.size)) [
            | inl same ↦ rw same r
            | inr new ↦ rw new (changed-Ready stat ix c r)
          ])
  ]

  class-Ready :
      (kind : FileClass) (content : Option Text) (stat : FileStat) (ix : VaultIndex)
      → Counted ix
      → Ready env ix
      → Ready env (observe_by_class kind env path content stat ix).0
  unfolding observe_by_class
  class-Ready FileClass.note content stat ix c r = note-Ready content stat ix c r
  class-Ready FileClass.excluded content stat ix c r = excluded-Ready ix c r
  class-Ready FileClass.attachment content stat ix c r = attachment-Ready stat ix c r

  pub update_observation-Ready :
      (content : Option Text) (stat : FileStat) (ix : VaultIndex)
      → Counted ix
      → Ready env ix
      → Ready env (update_observation env path content stat ix).0
  unfolding update_observation
  update_observation-Ready content stat ix c r = elim (Bool-cases (is_visible_path path)) [
    | inr e ↦ rw e (remove_file-Ready env path ix c r)
    | inl e ↦ rw e (class-Ready (classify env path) content stat ix c r)
  ]

  pub refresh-Ready :
      (revision : Text) (stat : FileStat) (ix : VaultIndex)
      → Ready env ix
      → Ready env (refresh_unchanged_note path revision stat ix).0
  unfolding refresh_unchanged_note
  refresh-Ready revision stat ix r = elim (Option-cases (lookup path ix.notes)) [
    | inl e ↦ rw (e, refresh_unchanged_note) r
    | inr (n, e) ↦ elim (Bool-cases (same_revision path revision ix)) [
      | inr f ↦ rw (e, f, refresh_unchanged_note) r
      | inl f ↦ elim (Result-cases (observed_byte_totals path stat.size false ix)) [
        | inr (x, g) ↦
            rw (e, f, g, refresh_unchanged_note) (λ live. record { linked = (r live).linked })
        | inl (tb, g) ↦
            rw (e, f, g, refresh_unchanged_note)
              (λ live. record { linked = λ t s. (r live).linked t s ∙ sym (restated n e t s) })
      ]
    ]
  ]
    where
      restated :
          (n : NoteMetadata)
          → lookup path ix.notes ≡ some n
          → (t s : Text)
          → links_to env ix.link_resolver t s (insert path (record n { stat = stat }) ix.notes)
            ≡ links_to env ix.link_resolver t s ix.notes
      restated n e t s = elim (Bool-cases (text_eq path s)) [
        | inl h ↦
            let there : lookup s ix.notes ≡ some n =
              subst (λ u. lookup u ix.notes ≡ some n) (text_eq_sound path s h) e in
            rw (lookup-insert path s, h, there) refl
        | inr h ↦ rw (lookup-insert path s, h) refl
      ]

  lexical-Ready :
      (was_note : Bool) (update : Result (Option Text)) (tv : Option Tantivy) (enabled : Bool)
      (ix : VaultIndex)
      → Ready env ix
      → Ready env (update_lexical path was_note update tv enabled ix).0
  unfolding update_lexical replace_lexical
  lexical-Ready was_note update none enabled ix r = r
  lexical-Ready was_note (err e) (some tv) enabled ix r = r
  lexical-Ready was_note (ok none) (some tv) enabled ix r = r
  lexical-Ready was_note (ok (some content)) (some tv) enabled ix r =
      elim (Option-cases (lookup path ix.notes)) [
        | inl e ↦ rw (e, update_lexical) r
        | inr (n, e) ↦ elim (Result-cases (tv.replace_document path n content)) [
          | inr (x, f) ↦ rw (e, f, update_lexical, replace_lexical) r
          | inl (stamp, f) ↦
              rw (e, f, update_lexical, replace_lexical)
                (either-Ready env enabled _ _ (λ _ live. record { linked = (r live).linked })
                  (λ _. r))
        ]
      ]

  known-Ready :
      {A : Type 0} (a : Result A) (ix : VaultIndex)
      → Counted ix
      → Ready env ix
      → Ready env (known_after env a path ix)
  unfolding known_after
  known-Ready (ok a) ix c r = r
  known-Ready (err e) ix c r = remove_file-Ready env path ix c r

  synchronize-Ready :
      (was_note : Bool) (update : Result (Option Text)) (tv : Option Tantivy) (enabled : Bool)
      (ix : VaultIndex)
      → Counted ix
      → Ready env ix
      → Ready env (synchronize env path was_note update tv enabled ix).0
  unfolding synchronize
  synchronize-Ready was_note update tv enabled ix c r =
      let known = known_after env update path ix in
      let counted = known-Counted env update path ix c in
      let staged = update_lexical path was_note update tv enabled known in
      known-Ready staged.1 staged.0
        (lexical-Counted env path was_note update tv enabled known counted)
        (lexical-Ready was_note update tv enabled known (known-Ready update ix c r))

  pub finish_refresh-Ready :
      (was_note : Bool) (update : Result (Option Text)) (tv : Option Tantivy) (enabled : Bool)
      (ix : VaultIndex)
      → Counted ix
      → Ready env ix
      → Ready env (finish_refresh env path was_note update tv enabled ix).0
  unfolding finish_refresh
  finish_refresh-Ready was_note (ok o) tv enabled ix c r =
      synchronize-Ready was_note (ok o) tv enabled ix c r
  finish_refresh-Ready was_note (err e) tv enabled ix c r = elim (Bool-cases (is_limit e)) [
    | inl h ↦ rw h (λ live. record { linked = (r live).linked })
    | inr h ↦ rw h (synchronize-Ready was_note (err e) tv enabled ix c r)
  ]
