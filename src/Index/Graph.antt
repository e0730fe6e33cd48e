-- ===== src/Index/Graph.antt =====
-- The backlinks of an index are the links between its notes, and the operations keep this.
use obsidian_mcp.Common.{
  ℕ, ◌-◌, ◌≡◌, refl, sym, ◌∙◌, ap, subst, Bool, true, false, none, some, [], arith, if◌then◌else◌,
  Bool-cases, Option-cases, inl, inr,
}
use obsidian_mcp.Text.{Text, text_eq}
use obsidian_mcp.Text.Compare.{text_eq_refl}
use obsidian_mcp.Map.{Set, lookup, remove, contains_key}
use obsidian_mcp.Map.Laws.{lookup-insert, lookup-remove, lookup-nil}
use obsidian_mcp.Map.Sums.{Unique, insert-Unique, remove-Unique}
use obsidian_mcp.Path.{logical_separators}
use obsidian_mcp.Models.{NoteMetadata}
use obsidian_mcp.Wikilink.{add_path, remove_path}
use obsidian_mcp.Index.{Env, VaultIndex, remove_note_contributions}
use obsidian_mcp.Index.Backlinks.{rebuild_backlinks, update_backlinks_for_file}
use obsidian_mcp.Index.Updates.{forget_excluded, forget_attachment, forget_note, remove_file}
use obsidian_mcp.Index.Entering.{clear_entry, enter_note, replace_note, links_before}
use obsidian_mcp.Index.Counted.{Counted}
use obsidian_mcp.Index.Removing.{note_left}
use obsidian_mcp.Index.Linked.{has, links_to, has-link_notes, has-replaced}

-- The backlinks of an index are the links between its notes.
pub record Linked (env : Env) (ix : VaultIndex) : Type 0 where
  pub linked : (t s : Text) → has t s ix.backlinks ≡ links_to env ix.link_resolver t s ix.notes

-- Rebuilding the backlinks makes them the links between the notes.
pub rebuild-Linked :
    (env : Env) (ix : VaultIndex) → Unique ix.notes → Linked env (rebuild_backlinks env ix)
unfolding rebuild_backlinks
rebuild-Linked env ix one = record {
  linked = λ t s.
      has-link_notes env ix.link_resolver t s ix.notes [] one
      ∙ rw (lookup-nil {V = Set} t) (ground arith);
}

-- After the metadata of a note has been replaced, updating the backlinks for this note alone makes
-- them right again.
pub update_backlinks-Linked :
    (env : Env) (path : Text) (n old : NoteMetadata) (ix jx : VaultIndex)
    → Linked env ix
    → lookup path ix.notes ≡ some old
    → ((s : Text) → lookup s jx.notes ≡ (if text_eq path s then some n else lookup s ix.notes))
    → jx.link_resolver ≡ ix.link_resolver
    → jx.backlinks ≡ ix.backlinks
    → Linked env (update_backlinks_for_file env path (some old.links) jx)
unfolding update_backlinks_for_file
update_backlinks-Linked env path n old ix jx right was now same kept = record {
  linked = λ t s.
      let here : lookup path jx.notes ≡ some n = now path ∙ rw (text_eq_refl path) refl in
      rw (update_backlinks_for_file, here)
        (has-replaced env jx.link_resolver t s path n old ix.notes jx.notes jx.backlinks
          (rw (kept, same) (right.linked t s)) was (now s));
}

-- Outside a batch the backlinks are right.
abbrev pub Ready : Env → VaultIndex → Type 0
Ready env ix = ix.source_batch ≡ false → Linked env ix

-- Two indexes with the same notes, links and mode.
record Alike (ix jx : VaultIndex) : Type 0 where
  pub notes : jx.notes ≡ ix.notes
  pub link_resolver : jx.link_resolver ≡ ix.link_resolver
  pub backlinks : jx.backlinks ≡ ix.backlinks
  pub source_batch : jx.source_batch ≡ ix.source_batch

Alike-Ready : (env : Env) {ix jx : VaultIndex} → Alike ix jx → Ready env ix → Ready env jx
Alike-Ready env {ix} {jx} a r live = record {
  linked = λ t s.
      rw (a.backlinks, a.link_resolver, a.notes) ((r (sym a.source_batch ∙ live)).linked t s);
}

forget_excluded-Alike : (path : Text) (ix : VaultIndex) → Alike ix (forget_excluded path ix)
unfolding forget_excluded
forget_excluded-Alike path ix = elim (Bool-cases (contains_key path ix.excluded_note_paths)) [
  | inl e ↦
      rw (e, forget_excluded)
        (record { notes = refl; link_resolver = refl; backlinks = refl; source_batch = refl })
  | inr e ↦
      rw (e, forget_excluded)
        (record { notes = refl; link_resolver = refl; backlinks = refl; source_batch = refl })
]

forget_attachment-Alike : (path : Text) (ix : VaultIndex) → Alike ix (forget_attachment path ix)
unfolding forget_attachment
forget_attachment-Alike path ix = elim (Option-cases (lookup path ix.attachments)) [
  | inl e ↦
      rw (e, forget_attachment)
        (record { notes = refl; link_resolver = refl; backlinks = refl; source_batch = refl })
  | inr (n, e) ↦
      rw (e, forget_attachment)
        (record { notes = refl; link_resolver = refl; backlinks = refl; source_batch = refl })
]

-- The graph is left for later in a batch, and made right else.
batched :
    (env : Env) (b : Bool) (x y : VaultIndex)
    → x.source_batch ≡ b
    → (b ≡ false → Ready env y)
    → Ready env (if b then x else y)
batched env true x y h k live = absurd (ground (arith, h, live))
batched env false x y h k live = k refl live

removed_note :
    (to_lowercase : Text → Text) (path : Text) (ix : VaultIndex)
    → (remove_note_contributions to_lowercase path ix).1 ≡ lookup path ix.notes
unfolding remove_note_contributions
removed_note to_lowercase path ix = elim (Option-cases (lookup path ix.notes)) [
  | inl e ↦ rw (e, remove_note_contributions) refl
  | inr (n, e) ↦ rw (e, remove_note_contributions) refl
]

absent_note :
    (to_lowercase : Text → Text) (path : Text) (ix : VaultIndex)
    → lookup path ix.notes ≡ none
    → (remove_note_contributions to_lowercase path ix).0 ≡ ix
unfolding remove_note_contributions
absent_note to_lowercase path ix e = rw (e, remove_note_contributions) refl

-- Removing a note changes neither the links of others nor the mode.
kept_graph :
    (to_lowercase : Text → Text) (path : Text) (ix : VaultIndex)
    → ((remove_note_contributions to_lowercase path ix).0.link_resolver ≡ ix.link_resolver)
      × ((remove_note_contributions to_lowercase path ix).0.backlinks ≡ ix.backlinks)
      × ((remove_note_contributions to_lowercase path ix).0.source_batch ≡ ix.source_batch)
unfolding remove_note_contributions
kept_graph to_lowercase path ix = elim (Option-cases (lookup path ix.notes)) [
  | inl e ↦ rw (e, remove_note_contributions) (refl, refl, refl)
  | inr (n, e) ↦ rw (e, remove_note_contributions) (refl, refl, refl)
]

pub either-Ready :
    (env : Env) (b : Bool) (x y : VaultIndex)
    → (b ≡ true → Ready env x)
    → (b ≡ false → Ready env y)
    → Ready env (if b then x else y)
either-Ready env true x y h k = h refl
either-Ready env false x y h k = k refl

module _ (env : Env) (path : Text) where
  abbrev unlinked : VaultIndex → VaultIndex
  unlinked left = record left {
    link_resolver = remove_path env.nfc env.to_lowercase path left.link_resolver;
    backlinks = remove path left.backlinks;
  }

  forget_note-Ready :
      (ix : VaultIndex) → Unique ix.notes → Ready env ix → Ready env (forget_note env path ix)
  unfolding forget_note
  forget_note-Ready ix one r =
      let left = (remove_note_contributions env.to_lowercase path ix).0 in
      let was = removed_note env.to_lowercase path ix in
      let kept = note_left env.to_lowercase path ix in
      elim (Option-cases (lookup path ix.notes)) [
        | inl e ↦
            rw (was ∙ e, forget_note)
              (subst (Ready env) (sym (absent_note env.to_lowercase path ix e)) r)
        | inr (n, e) ↦
            rw (was ∙ e, forget_note)
              (batched env left.source_batch (unlinked left) (rebuild_backlinks env (unlinked left))
                refl
                (λ live _.
                  rebuild-Linked env (unlinked left)
                    (rw kept.notes (remove-Unique path ix.notes one))))
      ]

module _ (env : Env) (path : Text) where
  -- Removing a file keeps the backlinks right.
  pub remove_file-Ready :
      (ix : VaultIndex) → Counted ix → Ready env ix → Ready env (remove_file env path ix)
  unfolding remove_file
  remove_file-Ready ix c r =
      let p = logical_separators path in
      let start : VaultIndex = record ix {
        source_revisions = remove p ix.source_revisions;
        waiting_for_lexical = remove p ix.waiting_for_lexical;
      } in
      let one = forget_excluded-Alike p start in
      let two = forget_attachment-Alike p (forget_excluded p start) in
      forget_note-Ready env p _ (rw (two.notes, one.notes) c.one_note)
        (Alike-Ready env two (Alike-Ready env one (λ live. record { linked = (r live).linked })))

  -- Entering the metadata of a note keeps the backlinks right.
  pub replace_note-Ready :
      (n : NoteMetadata) (t : ℕ) (ix : VaultIndex)
      → Counted ix
      → Ready env ix
      → Ready env (replace_note env path n t ix)
  unfolding replace_note clear_entry enter_note
  replace_note-Ready n t ix c r =
      let start : VaultIndex = record ix {
        waiting_for_lexical = remove path ix.waiting_for_lexical;
        excluded_note_paths = remove path ix.excluded_note_paths;
        attachments = remove path ix.attachments;
        attachment_bytes = elim (lookup path ix.attachments) as (λ _. ℕ) [
          | none ↦ ix.attachment_bytes
          | some size ↦ ix.attachment_bytes - size
        ];
      } in
      let (same, kept, mode) = kept_graph env.to_lowercase path start in
      let was = removed_note env.to_lowercase path start in
      let left = note_left env.to_lowercase path start in
      let entered = enter_note env path n t (clear_entry env path ix).0 in
      let added : VaultIndex = record entered {
        link_resolver = add_path env.nfc env.to_lowercase path entered.link_resolver;
      } in
      let existing = contains_key path ix.notes in
      let known : VaultIndex = if existing then entered else added in
      let now : (s : Text)
          → lookup s entered.notes ≡ (if text_eq path s then some n else lookup s ix.notes) =
        λ s.
          lookup-insert path s n _
          ∙ rw (left.notes, lookup-remove path s ix.notes) (ground arith) in
      let one : Unique entered.notes =
        insert-Unique path n _ (rw left.notes (remove-Unique path ix.notes c.one_note)) in
      batched env known.source_batch known _ refl (λ live.
        either-Ready env existing _ _
          (λ h _. elim (Option-cases (lookup path ix.notes)) [
            | inl e ↦ absurd (ground (arith, e, h))
            | inr (old, e) ↦
                let is : known ≡ entered = rw h refl in
                let calm = sym mode ∙ (ap (λ (k : VaultIndex). k.source_batch) (sym is) ∙ live) in
                subst
                  (λ k. Linked env (
                    update_backlinks_for_file env path (links_before (clear_entry env path ix).1)
                      k))
                  (sym is)
                  (subst
                    (λ o. Linked env (update_backlinks_for_file env path (links_before o) entered))
                    (sym (was ∙ e))
                    (update_backlinks-Linked env path n old ix entered (r calm) e now same kept))
          ])
          (λ h _. rebuild-Linked env known (rw h one)))
