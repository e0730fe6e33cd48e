-- ===== src/Registry/Retirement.antt =====
-- Contexts that are live belong to a scope or to the call that opens them
-- (src/daemon/vault_registry.rs).
use obsidian_mcp.Common.{
  ◌≡◌, sym, ap, ◌∙◌, subst, ◌⊎◌, inl, inr, ℕ, Bool, true, false, ◌||◌, Option, none, some, [], ◌∷◌,
  arith, Bool-cases, some-eq, ◌==◌,
}
use obsidian_mcp.Text.{Text, text_eq}
use obsidian_mcp.Text.Compare.{text_eq_sound}
use obsidian_mcp.Map.{Map, lookup, insert, remove}
use obsidian_mcp.Map.Laws.{lookup-insert, lookup-remove}
use obsidian_mcp.Registry.{
  VaultContext, LiveScope, Attach, idle, store, retire, stop_watcher, retire_scopes,
}
use obsidian_mcp.Registry.Scopes.{lookup-insert_same}

-- A context that watches the vault or whose runtime is active.
abbrev pub live : VaultContext → Bool
live x = x.watcher || x.active

-- What a live context belongs to.
abbrev pub InScope : Map LiveScope → ℕ → Type 0
InScope scopes c = (k : Text) × (s : LiveScope) × (lookup k scopes ≡ some s) × (s.context ≡ some c)

abbrev pub InAttach : Map Attach → ℕ → Type 0
InAttach attaching c =
    (id : Text) × (a : Attach) × (lookup id attaching ≡ some a)
    × (a.opened ≡ true)
    × (a.context ≡ c)

abbrev pub Owned : Map LiveScope → Map Attach → (ℕ → VaultContext) → Type 0
Owned scopes attaching contexts =
    (c : ℕ) → live (contexts c) ≡ true → InScope scopes c ⊎ InAttach attaching c

-- A live context after one was made idle: another one, and it was live before.
store-idle :
    (d c : ℕ) (contexts : ℕ → VaultContext)
    → live (store d idle contexts c) ≡ true
    → ((d == c) ≡ false) × (live (contexts c) ≡ true)
store-idle d c contexts h = elim (Bool-cases (d == c)) [
  | inl e ↦ absurd (ground (arith, rw e at h))
  | inr e ↦ (e, rw e at h)
]

-- The contexts differ.
abbrev Other : Option ℕ → ℕ → Type 0
Other o c = o ≡ some c → ⊥

pub retire-live :
    (o : Option ℕ) (c : ℕ) (contexts : ℕ → VaultContext)
    → live (retire o contexts c) ≡ true
    → Other o c × (live (contexts c) ≡ true)
retire-live none c contexts h = (λ e. cc (e), h)
retire-live (some d) c contexts h =
    let (differ, before) = store-idle d c contexts h in
    (λ e. absurd (ground (arith, differ, some-eq e)), before)

-- Retiring all scopes leaves no context of a scope live.
pub retire_scopes-live :
    (scopes : Map LiveScope) (c : ℕ) (contexts : ℕ → VaultContext)
    → live (retire_scopes scopes contexts c) ≡ true
    → (InScope scopes c → ⊥) × (live (contexts c) ≡ true)
unfolding retire_scopes lookup
retire_scopes-live [] c contexts h = (λ o. cc (o.2), h)
retire_scopes-live ((j, t) ∷ scopes) c contexts h =
    let (rest, first) = retire_scopes-live scopes c (retire t.context contexts) h in
    let (other, before) = retire-live t.context c contexts first in
    (
      λ o. elim (Bool-cases (text_eq j o.0)) [
        | inl e ↦ other (ap (λ s. s.context) (some-eq (rw e at o.2)) ∙ o.3)
        | inr e ↦ rest (o.0, o.1, rw e at o.2, o.3)
      ],
      before,
    )

module _ (scopes : Map LiveScope) (attaching : Map Attach) (contexts : ℕ → VaultContext)
    (p : Owned scopes attaching contexts) where
  pub retire_all-Owned : Owned [] attaching (retire_scopes scopes contexts)
  retire_all-Owned c h =
      let (gone, before) = retire_scopes-live scopes c contexts h in
      elim (p c before) [ inl s ↦ absurd (gone s) | inr a ↦ inr a ]

  -- The scopes change and keep their contexts.
  pub keep-Owned :
      (k : Text) (s : LiveScope)
      → ((o : LiveScope) → lookup k scopes ≡ some o → o.context ≡ s.context)
      → Owned (insert k s scopes) attaching contexts
  keep-Owned k s same c h = elim (p c h) [
    | inr a ↦ inr a
    | inl (j, o, e, x) ↦ elim (Bool-cases (text_eq k j)) [
      | inl y ↦
          let at_k : lookup k scopes ≡ some o =
            ap (λ i. lookup i scopes) (text_eq_sound k j y) ∙ e in
          inl (k, s, lookup-insert_same k s scopes, sym (same o at_k) ∙ x)
      | inr y ↦ inl (j, o, rw (lookup-insert, y) e, x)
    ]
  ]

  -- The last holder of a scope leaves.
  pub leave-Owned :
      (k : Text) (s : LiveScope)
      → lookup k scopes ≡ some s
      → Owned (remove k scopes) attaching (retire s.context contexts)
  leave-Owned k s h c l =
      let (other, before) = retire-live s.context c contexts l in
      elim (p c before) [
        | inr a ↦ inr a
        | inl (j, o, e, x) ↦ elim (Bool-cases (text_eq k j)) [
          | inl y ↦
              let at_k : lookup k scopes ≡ some o =
                ap (λ i. lookup i scopes) (text_eq_sound k j y) ∙ e in
              absurd (other (ap (λ t. t.context) (some-eq (sym h ∙ at_k)) ∙ x))
          | inr y ↦ inl (j, o, rw (lookup-remove, y) e, x)
        ]
      ]

  stop_watcher-live :
      (o : Option ℕ) (c : ℕ) → live (stop_watcher o contexts c) ≡ true → live (contexts c) ≡ true
  stop_watcher-live none c h = h
  stop_watcher-live (some d) c h = elim (Bool-cases (d == c)) [
    | inl e ↦
        subst (λ i. live (contexts i) ≡ true) {x = d} {y = c} (ground (arith, e))
          (ground (arith, rw e at h))
    | inr e ↦ rw e at h
  ]

  pub stop_watcher-Owned : (o : Option ℕ) → Owned scopes attaching (stop_watcher o contexts)
  stop_watcher-Owned o c h = p c (stop_watcher-live o c h)
