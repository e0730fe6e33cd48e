-- ===== src/Index/Queries.antt =====
-- Questions to an index, and the release of notes that wait for the full-text index
-- (src/vault/index.rs).
use obsidian_mcp.Common.{
  ℕ, Bool, ◌&&◌, ◌||◌, Option, none, some, List, [], ◌∷◌, any, leb, if◌then◌else◌, ◌≡◌, refl, ◌∙◌,
  arith,
}
use obsidian_mcp.Text.{Text, text_eq}
use obsidian_mcp.Map.{Map, Set, lookup, contains_key}
use obsidian_mcp.Path.{logical_separators}
use obsidian_mcp.Models.{NoteMetadata, WikiLink}
use obsidian_mcp.Index.{Env, VaultIndex, set_or_empty}

-- `paths.iter().filter_map(|p| self.notes.get(p))`
unfoldable pub notes_of : Map NoteMetadata → Set → List NoteMetadata
notes_of notes [] = []
notes_of notes ((path, u) ∷ paths) = elim (lookup path notes) [
  | none ↦ notes_of notes paths
  | some n ↦ n ∷ notes_of notes paths
]

-- `notes_with_tag`
unfoldable pub notes_with_tag : Env → Text → VaultIndex → List NoteMetadata
unfolding notes_of
notes_with_tag env tag ix = notes_of ix.notes (set_or_empty (lookup (env.to_lowercase tag) ix.tags))

-- `backlinks_to`
unfoldable pub backlinks_to : Text → VaultIndex → List NoteMetadata
unfolding notes_of logical_separators
backlinks_to path ix =
    notes_of ix.notes (set_or_empty (lookup (logical_separators path) ix.backlinks))

-- `outgoing_links`
unfoldable pub outgoing_links : Text → VaultIndex → List WikiLink
unfolding logical_separators
outgoing_links path ix = elim (lookup (logical_separators path) ix.notes) [
  | none ↦ []
  | some n ↦ n.links
]

-- `publish_embedding_upserts`: the entries whose stamp the commit covers, and the others
unfoldable pub split_stamps : ℕ → Map ℕ → Map ℕ × Map ℕ
split_stamps committed [] = ([], [])
split_stamps committed ((path, stamp) ∷ waiting) =
    let (ready, left) = split_stamps committed waiting in
    if leb stamp committed then ((path, stamp) ∷ ready, left) else (ready, (path, stamp) ∷ left)

-- `sort_unstable_by_key`
unfoldable pub insert_stamp : Text → ℕ → Map ℕ → Map ℕ
insert_stamp path stamp [] = (path, stamp) ∷ []
insert_stamp path stamp ((p, s) ∷ rest) =
    if leb stamp s then (path, stamp) ∷ (p, s) ∷ rest else (p, s) ∷ insert_stamp path stamp rest

unfoldable pub sort_stamps : Map ℕ → Map ℕ
unfolding insert_stamp
sort_stamps [] = []
sort_stamps ((path, stamp) ∷ rest) = insert_stamp path stamp (sort_stamps rest)

-- the paths that are passed on: those that are still notes
unfoldable pub upserts_of : Map NoteMetadata → Map ℕ → List Text
upserts_of notes [] = []
upserts_of notes ((path, stamp) ∷ ready) =
    let rest = upserts_of notes ready in if contains_key path notes then path ∷ rest else rest

-- `publish_embedding_upserts`
unfoldable pub publish_embedding_upserts : ℕ → VaultIndex → VaultIndex × List Text
unfolding split_stamps sort_stamps upserts_of
publish_embedding_upserts committed ix =
    let (ready, left) = split_stamps committed ix.waiting_for_lexical in
    (record ix { waiting_for_lexical = left }, upserts_of ix.notes (sort_stamps ready))

-- `PendingKind`, as `embedding_change` gives it
pub data PendingKind : Type 0 where
  awaiting_lexical upsert removal : PendingKind

-- `embedding_change`
unfoldable pub embedding_change : Text → Bool → VaultIndex → Option PendingKind
embedding_change path was_note ix =
    if contains_key path ix.waiting_for_lexical
    then some awaiting_lexical
    else if contains_key path ix.notes
    then some upsert
    else if was_note
    then some removal
    else none

any-split_stamps :
    (p : Text → Bool) (committed : ℕ) (waiting : Map ℕ)
    → any (λ (e : Text × ℕ). p (e.0)) ((split_stamps committed waiting).0)
      ≡ any (λ (e : Text × ℕ). p (e.0) && leb (e.1) committed) waiting
unfolding split_stamps
any-split_stamps p committed [] = refl
any-split_stamps p committed ((path, stamp) ∷ waiting) =
    ground (arith, any-split_stamps p committed waiting)

any-insert_stamp :
    (p : Text → Bool) (path : Text) (stamp : ℕ) (m : Map ℕ)
    → any (λ (e : Text × ℕ). p (e.0)) (insert_stamp path stamp m)
      ≡ (p path || any (λ (e : Text × ℕ). p (e.0)) m)
unfolding insert_stamp
any-insert_stamp p path stamp [] = refl
any-insert_stamp p path stamp ((q, s) ∷ m) = ground (arith, any-insert_stamp p path stamp m)

any-sort_stamps :
    (p : Text → Bool) (m : Map ℕ)
    → any (λ (e : Text × ℕ). p (e.0)) (sort_stamps m) ≡ any (λ (e : Text × ℕ). p (e.0)) m
unfolding sort_stamps
any-sort_stamps p [] = refl
any-sort_stamps p ((path, stamp) ∷ m) =
    any-insert_stamp p path stamp (sort_stamps m) ∙ ground (arith, any-sort_stamps p m)

any-upserts_of :
    (p : Text) (notes : Map NoteMetadata) (m : Map ℕ)
    → any (text_eq p) (upserts_of notes m)
      ≡ any (λ (e : Text × ℕ). text_eq p (e.0) && contains_key (e.0) notes) m
unfolding upserts_of
any-upserts_of p notes [] = refl
any-upserts_of p notes ((path, stamp) ∷ m) = ground (arith, any-upserts_of p notes m)

-- A commit releases exactly the paths that wait with a stamp that it covers and are still notes.
pub any-publish_embedding_upserts :
    (path : Text) (committed : ℕ) (ix : VaultIndex)
    → any (text_eq path) ((publish_embedding_upserts committed ix).1)
      ≡ any
          (λ (e : Text × ℕ).
            (text_eq path (e.0) && contains_key (e.0) ix.notes) && leb (e.1) committed)
          ix.waiting_for_lexical
unfolding publish_embedding_upserts
any-publish_embedding_upserts path committed ix =
    let here : Text → Bool = λ q. text_eq path q && contains_key q ix.notes in
    any-upserts_of path ix.notes (sort_stamps ((split_stamps committed ix.waiting_for_lexical).0))
    ∙ (any-sort_stamps here ((split_stamps committed ix.waiting_for_lexical).0)
        ∙ any-split_stamps here committed ix.waiting_for_lexical)
