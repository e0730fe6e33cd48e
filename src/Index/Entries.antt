-- ===== src/Index/Entries.antt =====
-- Which entries an operation leaves, and the sizes that it admits.
use obsidian_mcp.Common.{
  ℕ, ◌+◌, ◌<◌, ◌≡◌, refl, ap, subst, Bool, true, false, none, some, [], ◌∷◌, arith, and_then, any,
  ◌==◌, if◌then◌else◌, Bool-cases, inl, inr,
}
use obsidian_mcp.Text.{Text, text_eq, replace_char}
use obsidian_mcp.Errors.{Result, ok, ◌>>=◌, ok_or, >>=-inversion, ok-injective}
use obsidian_mcp.Map.{Map, Set, lookup, remove, get_or}
use obsidian_mcp.Map.Sums.{weight, count, count-remove}
use obsidian_mcp.Path.{backslash, slash, logical_separators}
use obsidian_mcp.Models.{NoteMetadata}
use obsidian_mcp.Index.{Env, VaultIndex}
use obsidian_mcp.Index.Updates.{
  remove_file, observed_byte_totals, checked_sub, checked_add, inventory_size_error,
}
use obsidian_mcp.Index.Counted.{Counted, size_of, itself}
use obsidian_mcp.Index.Removing.{Entries, plain_path, remove_file-Entries}

-- What the admitted totals are.
pub record Admitted (ix : VaultIndex) (path : Text) (size added t b : ℕ) : Type 0 where
  pub whole :
      t + (weight size_of (lookup path ix.notes) + weight itself (lookup path ix.attachments))
      ≡ ix.stats.vault_size_bytes + size
  pub part : b + weight itself (lookup path ix.attachments) ≡ ix.attachment_bytes + added
  pub bounded : t < 18446744073709551616

checked :
    (a o size : ℕ) {t : ℕ}
    → ok_or inventory_size_error (and_then (checked_sub a o) (λ left. checked_add left size)) ≡ ok t
    → (t + o ≡ a + size) × (t < 18446744073709551616)
checked a o size h = (ground arith, ground arith)

get_or-weight : (path : Text) (m : Map ℕ) → get_or 0 path m ≡ weight itself (lookup path m)
get_or-weight path m = ground arith

-- the size of the old entry
old_size_lem :
    (path : Text) (ix : VaultIndex)
    → Counted ix
    → (elim (lookup path ix.notes) as (λ _. ℕ) [
      | none ↦ get_or 0 path ix.attachments
      | some n ↦ n.stat.size
    ])
      ≡ weight size_of (lookup path ix.notes) + weight itself (lookup path ix.attachments)
old_size_lem path ix c = ground (arith, c.one_kind path)

pub observed-Admitted :
    (path : Text) (size : ℕ) (is_attachment : Bool) (ix : VaultIndex) {t b : ℕ}
    → Counted ix
    → observed_byte_totals path size is_attachment ix ≡ ok (t, b)
    → Admitted ix path size (if is_attachment then size else 0) t b
unfolding observed_byte_totals
observed-Admitted path size is_attachment ix {t} {b} c h =
    let old_size : ℕ = elim (lookup path ix.notes) as (λ _. ℕ) [
      | none ↦ get_or 0 path ix.attachments
      | some n ↦ n.stat.size
    ] in
    let added : ℕ = if is_attachment then size else 0 in
    let old_attachment = get_or 0 path ix.attachments in
    let second : ℕ → Result (ℕ × ℕ) = λ total_size.
      ok_or inventory_size_error
        (and_then (checked_sub ix.attachment_bytes old_attachment) (λ left. checked_add left added))
      >>= λ attachment_bytes. ok (total_size, attachment_bytes) in
    let one =
      >>=-inversion second
        (ok_or inventory_size_error (
          and_then (checked_sub ix.stats.vault_size_bytes old_size)
            (λ left. checked_add left size)))
        h in
    let two =
      >>=-inversion (λ (n : ℕ). ok (one.middle, n))
        (ok_or inventory_size_error (
          and_then (checked_sub ix.attachment_bytes old_attachment)
            (λ left. checked_add left added)))
        one.ended in
    let same = ok-injective two.ended in
    let (sum, small) = checked ix.stats.vault_size_bytes old_size size one.begun in
    let (rest, _) = checked ix.attachment_bytes old_attachment added two.begun in
    let is_t : one.middle ≡ t = ap (λ (p : ℕ × ℕ). p.0) same in
    let is_b : two.middle ≡ b = ap (λ (p : ℕ × ℕ). p.1) same in
    record {
      whole = omega (arith, sum, is_t, old_size_lem path ix c);
      part = omega (arith, rest, is_b, get_or-weight path ix.attachments);
      bounded = omega (arith, small, is_t);
    }

-- A path without any entry.
abbrev pub Vacant : Text → VaultIndex → Type 0
Vacant p ix =
    (k : Text)
    → text_eq p k ≡ true
    → count k ix.notes + (count k ix.attachments + count k ix.excluded_note_paths) ≡ 0

pub removed-Vacant :
    (p : Text) (ix : VaultIndex) (n : Map NoteMetadata) (a : Map ℕ) (x : Set)
    → Entries ix (remove p n) (remove p a) (remove p x)
    → Vacant p ix
removed-Vacant p ix n a x h k e =
    rw (h.notes, h.attachments, h.excluded)
      (ground (arith, e, count-remove p k n, count-remove p k a, count-remove p k x))

replaced_plain : (s : Text) → any (λ c. c == backslash) (replace_char backslash slash s) ≡ false
replaced_plain [] = refl
replaced_plain (c ∷ s) = ground (arith, replaced_plain s)

pub logical_separators_plain :
    (path : Text) → any (λ c. c == backslash) (logical_separators path) ≡ false
unfolding logical_separators
logical_separators_plain path = elim (Bool-cases (any (λ c. c == backslash) path)) [
  | inl e ↦ rw e (replaced_plain path)
  | inr e ↦ rw e e
]

module _ (env : Env) where
  pub remove_file-Vacant :
      (p : Text) (ix : VaultIndex)
      → any (λ c. c == backslash) p ≡ false
      → Vacant p (remove_file env p ix)
  remove_file-Vacant p ix plain =
      subst (λ q. Vacant q (remove_file env p ix)) (plain_path p plain)
        (removed-Vacant (logical_separators p) (remove_file env p ix) ix.notes ix.attachments
          ix.excluded_note_paths (remove_file-Entries env p ix))
