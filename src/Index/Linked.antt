-- ===== src/Index/Linked.antt =====
-- Backlinks: which notes have a link that leads to a note.
use obsidian_mcp.Common.{
  ◌≡◌, refl, sym, ◌∙◌, ap, subst, Bool, true, false, not, ◌&&◌, ◌||◌, Option, none, some, List, [],
  ◌∷◌, arith, any, if◌then◌else◌, Bool-cases, Option-cases, inl, inr,
}
use obsidian_mcp.Text.{Text, text_eq, is_empty}
use obsidian_mcp.Text.Compare.{text_eq_sound}
use obsidian_mcp.Map.{Map, Set, lookup, insert, remove, contains_key, add}
use obsidian_mcp.Map.Laws.{lookup-insert, lookup-remove, lookup-nil}
use obsidian_mcp.Map.Sums.{Unique}
use obsidian_mcp.Models.{WikiLink, NoteMetadata}
use obsidian_mcp.Wikilink.{LinkResolver}
use obsidian_mcp.Index.{Env, entry_add, set_or_empty}
use obsidian_mcp.Index.Backlinks.{leads_to, link_all, link_notes, unlink_all}

abbrev pub holds : Text → Option Set → Bool
holds source none = false
holds source (some s) = contains_key source s

-- The source is among the backlinks of the target.
abbrev pub has : Text → Text → Map Set → Bool
has target source m = holds source (lookup target m)

holds_added :
    (s source : Text) (o : Option Set)
    → contains_key s (add source (set_or_empty o)) ≡ (text_eq source s || holds s o)
holds_added s source none =
    ground (arith, lookup-insert {V = Unit {0}} source s tt [], lookup-nil {V = Unit {0}} s)
holds_added s source (some x) = ground (arith, lookup-insert {V = Unit {0}} source s tt x)

pub has-entry_add :
    (t s target source : Text) (m : Map Set)
    → has t s (entry_add target source m) ≡ ((text_eq target t && text_eq source s) || has t s m)
has-entry_add t s target source m = elim (Bool-cases (text_eq target t)) [
  | inl e ↦
      rw (lookup-insert target t, e)
        (subst
          (λ u.
            contains_key s (add source (set_or_empty (lookup u m)))
            ≡ (text_eq source s || has t s m))
          (sym (text_eq_sound target t e)) (holds_added s source (lookup t m)))
  | inr e ↦ rw (lookup-insert target t, e) refl
]

-- A source leaves the set of one target.
has_dropped :
    (t s x path : Text) (m m' : Map Set) (o : Option Set)
    → lookup t m' ≡ (if text_eq x t then o else lookup t m)
    → holds s o ≡ (has x s m && not (text_eq path s))
    → has t s m' ≡ (has t s m && not (text_eq path s && text_eq x t))
has_dropped t s x path m m' o h k = elim (Bool-cases (text_eq x t)) [
  | inl e ↦
      let left : lookup t m' ≡ o = h ∙ rw e refl in
      let before : has x s m ≡ has t s m = ap (λ u. has u s m) (text_eq_sound x t e) in
      rw (left, k, before, e) (ground arith)
  | inr e ↦ let left : lookup t m' ≡ lookup t m = h ∙ rw e refl in rw (left, e) (ground arith)
]

absent_dropped :
    (t x : Text) (m : Map Set)
    → lookup x m ≡ none
    → lookup t m ≡ (if text_eq x t then none else lookup t m)
absent_dropped t x m h = elim (Bool-cases (text_eq x t)) [
  | inl e ↦ rw e (subst (λ u. lookup u m ≡ none) (text_eq_sound x t e) h)
  | inr e ↦ rw e refl
]

contains_key-remove :
    (s path : Text) (sources : Set)
    → contains_key s (remove path sources) ≡ (contains_key s sources && not (text_eq path s))
contains_key-remove s path sources = ground (arith, lookup-remove path s sources)

is_empty-contains_key : (s : Text) (m : Set) → is_empty m ≡ true → contains_key s m ≡ false
unfolding lookup
is_empty-contains_key s [] h = refl
is_empty-contains_key s (p ∷ m) h = cc

-- The last source of a set leaves none.
last_left :
    (s path : Text) (sources : Set)
    → is_empty (remove path sources) ≡ true
    → false ≡ (contains_key s sources && not (text_eq path s))
last_left s path sources h =
    sym (is_empty-contains_key s (remove path sources) h) ∙ contains_key-remove s path sources

module _ (env : Env) (r : LinkResolver) where
  abbrev pub leads : Text → WikiLink → Bool
  leads t link = elim (leads_to env r link) [ none ↦ false | some x ↦ text_eq x t ]

  abbrev pub leading : Text → Option NoteMetadata → Bool
  leading t none = false
  leading t (some n) = any (leads t) n.links

  -- The source is a note with a link that leads to the target.
  abbrev pub links_to : Text → Text → Map NoteMetadata → Bool
  links_to t s notes = leading t (lookup s notes)

  pub has-link_all :
      (t s source : Text) (links : List WikiLink) (m : Map Set)
      → has t s (link_all env r source links m)
        ≡ ((text_eq source s && any (leads t) links) || has t s m)
  unfolding link_all
  has-link_all t s source [] m = ground arith
  has-link_all t s source (link ∷ links) m = elim (Option-cases (leads_to env r link)) [
    | inl e ↦ rw (e, link_all) (ground (arith, has-link_all t s source links m))
    | inr (x, e) ↦
        rw (e, link_all)
          (ground (
            arith,
            has-link_all t s source links (entry_add x source m),
            has-entry_add t s x source m,
          ))
  ]

  pub has-link_notes :
      (t s : Text) (notes : Map NoteMetadata) (m : Map Set)
      → Unique notes
      → has t s (link_notes env r notes m) ≡ (links_to t s notes || has t s m)
  unfolding link_notes lookup
  has-link_notes t s [] m h = refl
  has-link_notes t s ((k, n) ∷ notes) m (new, h) = elim (Bool-cases (text_eq k s)) [
    | inl e ↦
        let absent : lookup s notes ≡ none =
          subst (λ u. lookup u notes ≡ none) (text_eq_sound k s e) new in
        has-link_notes t s notes (link_all env r k n.links m) h ∙ rw (absent, has-link_all, e) refl
    | inr e ↦ has-link_notes t s notes (link_all env r k n.links m) h ∙ rw (has-link_all, e) refl
  ]

  has-unlink_all :
      (t s path : Text) (links : List WikiLink) (m : Map Set)
      → has t s (unlink_all env r path links m)
        ≡ (has t s m && not (text_eq path s && any (leads t) links))
  unfolding unlink_all
  has-unlink_all t s path [] m = ground arith
  has-unlink_all t s path (link ∷ links) m = elim (Option-cases (leads_to env r link)) [
    | inl e ↦ rw (e, unlink_all) (ground (arith, has-unlink_all t s path links m))
    | inr (x, e) ↦ elim (Option-cases (lookup x m)) [
      | inl f ↦
          rw (e, f, unlink_all)
            (ground (
              arith,
              has-unlink_all t s path links m,
              has_dropped t s x path m m none (absent_dropped t x m f) (rw f refl),
            ))
      | inr (sources, f) ↦ elim (Bool-cases (is_empty (remove path sources))) [
        | inl g ↦
            rw (e, f, g, unlink_all)
              (ground (
                arith,
                has-unlink_all t s path links (remove x m),
                has_dropped t s x path m (remove x m) none (lookup-remove x t m)
                    (rw f (last_left s path sources g)),
              ))
        | inr g ↦
            rw (e, f, g, unlink_all)
              (ground (
                arith,
                has-unlink_all t s path links (insert x (remove path sources) m),
                has_dropped t s x path m (insert x (remove path sources) m)
                    (some (remove path sources)) (lookup-insert x t (remove path sources) m)
                    (rw f (contains_key-remove s path sources)),
              ))
      ]
    ]
  ]

  -- Replacing the links of one note turns the backlinks for the old notes into those for the new.
  pub has-replaced :
      (t s path : Text) (n old : NoteMetadata) (notes notes' : Map NoteMetadata) (m : Map Set)
      → has t s m ≡ links_to t s notes
      → lookup path notes ≡ some old
      → lookup s notes' ≡ (if text_eq path s then some n else lookup s notes)
      → has t s (link_all env r path n.links (unlink_all env r path old.links m))
        ≡ links_to t s notes'
  has-replaced t s path n old notes notes' m right was now =
      let linked = has-link_all t s path n.links (unlink_all env r path old.links m) in
      let unlinked = has-unlink_all t s path old.links m in
      elim (Bool-cases (text_eq path s)) [
        | inl e ↦
            let here : lookup s notes' ≡ some n = now ∙ rw e refl in
            let there : lookup s notes ≡ some old =
              subst (λ u. lookup u notes ≡ some old) (text_eq_sound path s e) was in
            let before : has t s m ≡ any (leads t) old.links = right ∙ rw there refl in
            linked ∙ rw (unlinked, before, here, e) (ground arith)
        | inr e ↦
            let here : lookup s notes' ≡ lookup s notes = now ∙ rw e refl in
            linked ∙ rw (unlinked, right, here, e) (ground arith)
      ]
