-- ===== src/Registry/Serving.antt =====
-- What a holder is served after its `attach` (src/daemon/vault_registry.rs).
use obsidian_mcp.Common.{
  ◌≡◌, refl, sym, ap, ◌∙◌, subst, inl, inr, ℕ, true, none, some, [], ◌∷◌, arith, Bool-cases,
  Option-cases, some-eq, ◌==◌,
}
use obsidian_mcp.Text.{Text, text_eq}
use obsidian_mcp.Errors.{ok, ok-injective}
use obsidian_mcp.Map.{Map, lookup, insert}
use obsidian_mcp.Registry.{LiveScope, Attach, Views, holds, by_holder, context_for_holder, watching}
use obsidian_mcp.Registry.Calls.{finish_attach, publish}
use obsidian_mcp.Registry.Scopes.{Sound, by_holder_sound, lookup-insert_same}
use obsidian_mcp.Registry.Steps.{publish-Valid, Valid}
use obsidian_mcp.Registry.Reached.{reached-Valid}
use obsidian_mcp.Registry.Runs.{Reachable}

-- A holder that has a scope is found.
by_holder-some :
    (id : Text) (scopes : Map LiveScope) (k : Text) {s : LiveScope}
    → lookup k scopes ≡ some s
    → holds id s ≡ true
    → (p : Text × LiveScope) × (by_holder id scopes ≡ some p)
unfolding by_holder lookup
by_holder-some id [] k h held = cc (h)
by_holder-some id ((j, t) ∷ scopes) k h held = elim (Bool-cases (holds id t)) [
  | inl e ↦ ((j, t), rw e refl)
  | inr e ↦ elim (Bool-cases (text_eq j k)) [
    | inl x ↦ let same = some-eq (rw x at h) in absurd (ground (arith, e, held, ap (holds id) same))
    | inr x ↦ rw e (by_holder-some id scopes k (rw x at h) held)
  ]
]

pub by_holder_complete :
    (id : Text) (scopes : Map LiveScope) (k : Text) {s : LiveScope}
    → Sound scopes
    → lookup k scopes ≡ some s
    → holds id s ≡ true
    → by_holder id scopes ≡ some (k, s)
by_holder_complete id scopes k {s} p h held =
    let ((j, t), found) = by_holder-some id scopes k h held in
    let (at, theirs) = by_holder_sound id scopes p.unique found in
    let same : j ≡ k = p.one_scope id j k at h theirs held in
    let scope : t ≡ s = some-eq (sym at ∙ ap (λ i. lookup i scopes) same ∙ h) in
    found ∙ (λ i. some (same i, scope i))

Served : Text → Attach → Views → ℕ → Type 0
Served id a x d =
    (context_for_holder id x ≡ some d)
    × ((x.contexts d).active ≡ true)
    × ((x.contexts d).watcher ≡ true
        → (s : LiveScope) × (lookup a.scope_id x.scopes ≡ some s) × (watching s ≡ true))

same_number : (c : ℕ) → (c == c) ≡ true
same_number c = ground arith

publish-Served :
    (id : Text) (a : Attach) (s : LiveScope) (v : Views)
    → Valid v
    → lookup id v.attaching ≡ some a
    → lookup a.scope_id v.scopes ≡ some s
    → holds id s ≡ true
    → Served id a (publish id a s v) a.context
unfolding Served publish context_for_holder
publish-Served id a s v p ha hs held =
    let t : LiveScope = record s { context = some a.context; initialization = none } in
    let at = lookup-insert_same a.scope_id t v.scopes in
    let found =
      by_holder_complete id (insert a.scope_id t v.scopes) a.scope_id
        (publish-Valid id a s v p ha hs held).sound at held in
    elim (Bool-cases (watching s)) [
      | inl w ↦ (rw found refl, rw (same_number a.context, w) refl, λ _. (t, at, w))
      | inr w ↦ (
        rw found refl,
        rw (same_number a.context, w) refl,
        λ x. cc (rw (same_number a.context, w) at x),
      )
    ]

-- A call of attach that succeeds in a state that the steps reach gives a context that is active, and in
-- the state after it the holder is served this context, which watches the vault only if a holder wants
-- this.
pub finish_attach-context_for_holder :
    {v w : Views} (id : Text) (a : Attach) {c : ℕ}
    → Reachable v
    → lookup id v.attaching ≡ some a
    → finish_attach id a v ≡ (w, ok c)
    → (context_for_holder id w ≡ some c)
      × ((w.contexts c).active ≡ true)
      × ((w.contexts c).watcher ≡ true
          → (s : LiveScope) × (lookup a.scope_id w.scopes ≡ some s) × (watching s ≡ true))
unfolding finish_attach Served
finish_attach-context_for_holder {v} {w} id a {c} r h f =
    elim (Option-cases (lookup a.scope_id v.scopes)) [
      | inl e ↦ cc (ap (λ p. p.1) (rw e at f))
      | inr (s, e) ↦ elim (Bool-cases (holds id s)) [
        | inr k ↦ cc (ap (λ p. p.1) (rw (e, k) at f))
        | inl k ↦
            let done : (publish id a s v, ok a.context) ≡ (w, ok c) = rw (e, k) at f in
            let same : a.context ≡ c = ok-injective (ap (λ p. p.1) done) in
            subst (λ x. Served id a x c) (ap (λ p. p.0) done)
              (subst (Served id a (publish id a s v)) same
                (publish-Served id a s v (reached-Valid r) h e k))
      ]
    ]
