-- ===== src/Registry/Owners.antt =====
-- Who owns the live contexts while calls of `attach` begin and end (src/daemon/vault_registry.rs).
use obsidian_mcp.Common.{
  ◌≡◌, refl, sym, ap, ◌∙◌, subst, inl, inr, ℕ, true, false, Option, none, some, arith, Bool-cases,
  some-eq, ◌==◌,
}
use obsidian_mcp.Text.{Text, text_eq}
use obsidian_mcp.Text.Compare.{text_eq_sound}
use obsidian_mcp.Map.{Map, lookup, insert, remove}
use obsidian_mcp.Map.Laws.{lookup-insert, lookup-remove}
use obsidian_mcp.Registry.{VaultContext, LiveScope, Attach, Views, store}
use obsidian_mcp.Registry.Calls.{contexts_with, attach_of, let_go}
use obsidian_mcp.Registry.Scopes.{lookup-insert_same}
use obsidian_mcp.Registry.Attaching.{read_by}
use obsidian_mcp.Registry.Retirement.{live, Owned, InAttach}

absent_present : {A : Type 0} {o : Option A} {a : A} → o ≡ none → o ≡ some a → ⊥
absent_present e f = cc

-- What the calls own when one more begins.
enter_attach :
    (attaching : Map Attach) (id : Text) (a : Attach) (c : ℕ)
    → lookup id attaching ≡ none
    → InAttach attaching c
    → InAttach (insert id a attaching) c
enter_attach attaching id a c new (other, b, e, o, x) = elim (Bool-cases (text_eq id other)) [
  | inl y ↦
      absurd
        (absent_present (ap (λ i. lookup i attaching) (sym (text_eq_sound id other y)) ∙ new) e)
  | inr y ↦ (other, b, rw (lookup-insert, y) e, o, x)
]

-- What the calls own when one of them ends: the same, but for its own context.
leave_attach :
    (attaching : Map Attach) (id : Text) {a : Attach} (c : ℕ)
    → lookup id attaching ≡ some a
    → (a.opened ≡ true → a.context ≡ c → ⊥)
    → InAttach attaching c
    → InAttach (remove id attaching) c
leave_attach attaching id {a} c h differ (other, b, e, o, x) =
    elim (Bool-cases (text_eq id other)) [
      | inl y ↦
          let same : a ≡ b =
            some-eq (sym h ∙ ap (λ i. lookup i attaching) (text_eq_sound id other y) ∙ e) in
          absurd (differ (ap (λ t. t.opened) same ∙ o) (ap (λ t. t.context) same ∙ x))
      | inr y ↦ (other, b, rw (lookup-remove, y) e, o, x)
    ]

differs : (d c : ℕ) → (d == c) ≡ false → d ≡ c → ⊥
differs d c e same = ground (arith, e, same)

module _ (scopes : Map LiveScope) (attaching : Map Attach) (contexts : ℕ → VaultContext)
    (p : Owned scopes attaching contexts) where
  -- A call that opens a context owns it.
  pub begin-Owned :
      (k id : Text) (s : LiveScope) (v : Views) (o : Option ℕ)
      → lookup id attaching ≡ none
      → v.contexts ≡ contexts
      → Owned scopes (insert id (attach_of k s v o) attaching) (contexts_with s v o)
  begin-Owned k id s v (some d) new same c l = elim (p c (subst (λ f. live (f c) ≡ true) same l)) [
    | inl x ↦ inl x
    | inr x ↦ inr (enter_attach attaching id (attach_of k s v (some d)) c new x)
  ]
  begin-Owned k id s v none new same c l = elim (Bool-cases (v.next_context == c)) [
    | inl e ↦ inr (
      id,
      attach_of k s v none,
      lookup-insert_same id (attach_of k s v none) attaching,
      refl,
      ground (arith, e),
    )
    | inr e ↦ elim (p c (subst (λ f. live (f c) ≡ true) same (rw e at l))) [
      | inl x ↦ inl x
      | inr x ↦ inr (enter_attach attaching id (attach_of k s v none) c new x)
    ]
  ]

  -- A call that fails lets its context go.
  pub let_go-Owned :
      (id : Text) (a : Attach)
      → lookup id attaching ≡ some a
      → Owned scopes (remove id attaching) (let_go a contexts)
  let_go-Owned id a h c l = elim (Bool-cases (a.opened)) [
    | inr e ↦ elim (p c (rw e at l)) [
      | inl x ↦ inl x
      | inr x ↦ inr (leave_attach attaching id c h (λ o _. absurd (ground (arith, e, o))) x)
    ]
    | inl e ↦ elim (Bool-cases (a.context == c)) [
      | inl y ↦ absurd (ground (arith, rw (e, y) at l))
      | inr y ↦ elim (p c (rw (e, y) at l)) [
        | inl x ↦ inl x
        | inr x ↦ inr (leave_attach attaching id c h (λ _ same. differs a.context c y same) x)
      ]
    ]
  ]

  -- A call that ends well gives its context to the scope.
  pub publish-Owned :
      (id : Text) (a : Attach) (s t : LiveScope) (x : VaultContext)
      → lookup id attaching ≡ some a
      → lookup a.scope_id scopes ≡ some s
      → s.context ≡ read_by a
      → t.context ≡ some a.context
      → Owned (insert a.scope_id t scopes) (remove id attaching) (store a.context x contexts)
  publish-Owned id a s t x ha hs read new c l = elim (Bool-cases (a.context == c)) [
    | inl y ↦
        let same : a.context ≡ c = ground (arith, y) in
        inl (a.scope_id, t, lookup-insert_same a.scope_id t scopes, new ∙ ap some same)
    | inr y ↦ elim (p c (rw y at l)) [
      | inr z ↦ inr (leave_attach attaching id c ha (λ _ same. differs a.context c y same) z)
      | inl (j, o, e, z) ↦ elim (Bool-cases (text_eq a.scope_id j)) [
        | inr w ↦ inl (j, o, rw (lookup-insert, w) e, z)
        | inl w ↦
            let same : s ≡ o =
              some-eq (sym hs ∙ ap (λ i. lookup i scopes) (text_eq_sound a.scope_id j w) ∙ e) in
            absurd (not_read a c (differs a.context c y) (sym read ∙ ap (λ u. u.context) same ∙ z))
      ]
    ]
  ]
    where
      not_read : (b : Attach) (d : ℕ) → (b.context ≡ d → ⊥) → read_by b ≡ some d → ⊥
      not_read b d n e = elim (Bool-cases (b.opened)) [
        | inl f ↦ cc (rw f at e)
        | inr f ↦ n (some-eq (rw f at e))
      ]
