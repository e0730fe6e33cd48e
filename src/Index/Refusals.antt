-- ===== src/Index/Refusals.antt =====
-- What a refused observation leaves.
use obsidian_mcp.Common.{
  ◌≡◌, refl, Bool, true, false, Option, none, some, Bool-cases, Option-cases, inl, inr, ◌==◌,
}
use obsidian_mcp.Text.{Text}
use obsidian_mcp.Errors.{VaultError, Result, err, Result-cases}
use obsidian_mcp.Map.{lookup, remove}
use obsidian_mcp.Models.{FileStat}
use obsidian_mcp.Exclude.{is_visible_path, allows_source}
use obsidian_mcp.Index.{Env, VaultIndex}
use obsidian_mcp.Index.Updates.{FileClass, classify, observed_byte_totals}
use obsidian_mcp.Index.Observations.{Tantivy, is_limit, finish_refresh, apply_observation}
use obsidian_mcp.Index.Entering.{
  observe_note, attach_changed, observe_attachment, observe_by_class, update_observation,
}

module _ (env : Env) (path : Text) where
  -- the result is an error only if the index is as before
  abbrev Keeps : VaultIndex → VaultIndex × Result (Option Text) → Type 0
  Keeps ix r = (e : VaultError) → r.1 ≡ err e → r.0 ≡ ix

  note_Keeps :
      (content : Option Text) (stat : FileStat) (ix : VaultIndex)
      → Keeps ix (observe_note env path content stat ix)
  unfolding observe_note
  note_Keeps none stat ix = λ e h. refl
  note_Keeps (some content) stat ix =
      elim (Bool-cases (allows_source env.eligible env.exclude path content)) [
        | inr f ↦ rw f (λ e h. cc)
        | inl f ↦ elim (Result-cases (env.parse_note_metadata path content stat)) [
          | inr (x, g) ↦ rw (f, g) (λ e h. refl)
          | inl (n, g) ↦ elim (Result-cases (observed_byte_totals path n.stat.size false ix)) [
            | inr (x, k) ↦ rw (f, g, k) (λ e h. refl)
            | inl (tb, k) ↦ rw (f, g, k) (λ e h. cc)
          ]
        ]
      ]

  changed_Keeps : (stat : FileStat) (ix : VaultIndex) → Keeps ix (attach_changed env path stat ix)
  unfolding attach_changed
  changed_Keeps stat ix = elim (Result-cases (observed_byte_totals path stat.size true ix)) [
    | inr (x, k) ↦ rw (k, attach_changed) (λ e h. refl)
    | inl (tb, k) ↦ rw (k, attach_changed) (λ e h. cc)
  ]

  attachment_Keeps :
      (stat : FileStat) (ix : VaultIndex) → Keeps ix (observe_attachment env path stat ix)
  unfolding observe_attachment
  attachment_Keeps stat ix = elim (Option-cases (lookup path ix.attachments)) [
    | inl f ↦ rw (f, observe_attachment) (changed_Keeps stat ix)
    | inr (size, f) ↦
        rw (f, observe_attachment)
          (elim (Bool-cases (size == stat.size)) [
            | inl same ↦ rw same (λ e h. refl)
            | inr new ↦ rw new (changed_Keeps stat ix)
          ])
  ]

  class_Keeps :
      (kind : FileClass) (content : Option Text) (stat : FileStat) (ix : VaultIndex)
      → Keeps ix (observe_by_class kind env path content stat ix)
  unfolding observe_by_class
  class_Keeps FileClass.note content stat ix = note_Keeps content stat ix
  class_Keeps FileClass.excluded content stat ix = λ e h. cc
  class_Keeps FileClass.attachment content stat ix = attachment_Keeps stat ix

  pub update_observation_refused :
      (content : Option Text) (stat : FileStat) (ix : VaultIndex) (e : VaultError)
      → (update_observation env path content stat ix).1 ≡ err e
      → (update_observation env path content stat ix).0 ≡ ix
  unfolding update_observation
  update_observation_refused content stat ix = elim (Bool-cases (is_visible_path path)) [
    | inr f ↦ rw f (λ e h. cc)
    | inl f ↦ rw f (class_Keeps (classify env path) content stat ix)
  ]

  -- An observation that fails because the sizes add up to too much changes nothing but that the
  -- revision of the path is forgotten, and the caller gets the error.
  pub apply_observation_limit :
      (tv : Option Tantivy) (enabled : Bool) (content : Option Text) (stat : FileStat)
      (ix : VaultIndex) (e : VaultError)
      → (update_observation env path content stat ix).1 ≡ err e
      → is_limit e ≡ true
      → apply_observation env tv enabled path content stat ix
        ≡ (record ix { source_revisions = remove path ix.source_revisions }, err e)
  unfolding apply_observation finish_refresh
  apply_observation_limit tv enabled content stat ix e h limit =
      rw (h, update_observation_refused content stat ix e h, limit)
