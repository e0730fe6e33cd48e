-- ===== src/Registry/Attaching.antt =====
-- The calls of `attach` that are under way (src/daemon/vault_registry.rs): while its holder stays, the
-- call has the lock of its scope, and the scope's context is the one that it has read.
use obsidian_mcp.Common.{
  ◌≡◌, sym, ap, ◌∙◌, subst, inl, inr, ℕ, Bool, true, Option, none, some, [], arith, Bool-cases,
  some-eq, if◌then◌else◌,
}
use obsidian_mcp.Text.{Text, text_eq}
use obsidian_mcp.Text.Compare.{text_eq_sound, text_eq_refl}
use obsidian_mcp.Map.{Map, lookup, insert, remove, get_or}
use obsidian_mcp.Map.Laws.{lookup-remove, lookup-nil}
use obsidian_mcp.Registry.{LiveScope, Attach, holds}
use obsidian_mcp.Registry.Calls.{lock, locked_by, unlocked}
use obsidian_mcp.Registry.Holding.{hold, new_scope}
use obsidian_mcp.Registry.Scopes.{
  Sound, Within, entered, lookup-insert_cases, lookup-insert_same, lookup-remove_kept,
}

-- The context of a scope while a call works on it.
abbrev pub read_by : Attach → Option ℕ
read_by a = if a.opened then none else some a.context

pub record Locked (id : Text) (a : Attach) (k : Text) (s : LiveScope) : Type 0 where
  pub place : k ≡ a.scope_id
  pub lock : s.initialization ≡ some id
  pub context : s.context ≡ read_by a

abbrev pub Locks : Map LiveScope → Map Attach → Type 0
Locks scopes attaching =
    (id k : Text) (a : Attach) (s : LiveScope)
    → lookup id attaching ≡ some a
    → lookup k scopes ≡ some s
    → holds id s ≡ true
    → Locked id a k s

pub nil-Locks : (attaching : Map Attach) → Locks [] attaching
nil-Locks attaching id k a s _ h _ = cc (rw lookup-nil at h)

-- One holder has the lock of a scope.
one_lock : {id other : Text} {o : Option Text} → o ≡ some id → o ≡ some other → id ≡ other
one_lock e f = some-eq (sym e ∙ f)

module _ (scopes : Map LiveScope) (attaching : Map Attach) (p : Locks scopes attaching) where
  -- A scope loses holders.
  pub change-Locks :
      (k : Text) {s : LiveScope} (t : LiveScope)
      → lookup k scopes ≡ some s
      → Within t s
      → t.initialization ≡ s.initialization
      → t.context ≡ s.context
      → Locks (insert k t scopes) attaching
  change-Locks k {s} t h w same_lock same_context id j a u ea eu hu =
      elim (lookup-insert_cases k j t scopes eu) [
        | inr old ↦ p id j a u ea old hu
        | inl (same, value) ↦
            let known = p id k a s ea h (w id (subst (λ x. holds id x ≡ true) (sym value) hu)) in
            record {
              place = sym same ∙ known.place;
              lock = sym (ap (λ x. x.initialization) value) ∙ same_lock ∙ known.lock;
              context = sym (ap (λ x. x.context) value) ∙ same_context ∙ known.context;
            }
      ]

  pub remove-Locks : (k : Text) → Locks (remove k scopes) attaching
  remove-Locks k id j a s ea es h = p id j a s ea (lookup-remove_kept k j scopes es) h

  -- A holder enters that has no call under way.
  pub enter-Locks :
      (k id : Text) (watch : Bool)
      → lookup id attaching ≡ none
      → Locks (insert k (hold id watch (get_or new_scope k scopes)) scopes) attaching
  enter-Locks k id watch new other j a u ea eu hu = elim (entered scopes k id watch j other eu hu) [
    | inl (same, _) ↦ cc (sym new ∙ ap (λ i. lookup i attaching) (sym same) ∙ ea)
    | inr (o, eo, ho, ec, ei) ↦
        let known = p other j a o ea eo ho in
        record { place = known.place; lock = sym ei ∙ known.lock; context = sym ec ∙ known.context }
  ]

  -- A call takes the lock that nobody has.
  pub begin-Locks :
      (k id : Text) (s : LiveScope) (a : Attach)
      → Sound scopes
      → lookup k scopes ≡ some s
      → holds id s ≡ true
      → s.initialization ≡ none
      → a.scope_id ≡ k
      → s.context ≡ read_by a
      → Locks (insert k (lock (some id) s) scopes) (insert id a attaching)
  begin-Locks k id s a sound h held free place context other j b u eb eu hu =
      let here : (x : LiveScope) → lookup k scopes ≡ some x → x ≡ s = λ x e. some-eq (sym e ∙ h) in
      elim (lookup-insert_cases id other a attaching eb) [
        | inr old ↦ elim (lookup-insert_cases k j (lock (some id) s) scopes eu) [
          | inr before ↦ p other j b u old before hu
          | inl (same, value) ↦ cc (
            sym free,
            (p other k b s old h (subst (λ x. holds other x ≡ true) (sym value) hu)).lock,
          )
        ]
        | inl (who, call) ↦ elim (lookup-insert_cases k j (lock (some id) s) scopes eu) [
          | inl (same, value) ↦ record {
            place = sym same ∙ sym place ∙ ap (λ x. x.scope_id) call;
            lock = sym (ap (λ x. x.initialization) value) ∙ ap some who;
            context = sym (ap (λ x. x.context) value) ∙ context ∙ ap read_by call;
          }
          | inr before ↦
              let same : k ≡ j =
                sound.one_scope id k j h before held (subst (λ i. holds i u ≡ true) (sym who) hu) in
              let value : lock (some id) s ≡ u = some-eq (
                sym (lookup-insert_same k (lock (some id) s) scopes)
                ∙ ap (λ i. lookup i (insert k (lock (some id) s) scopes)) same
                ∙ eu) in
              record {
                place = sym same ∙ sym place ∙ ap (λ x. x.scope_id) call;
                lock = sym (ap (λ x. x.initialization) value) ∙ ap some who;
                context = sym (ap (λ x. x.context) value) ∙ context ∙ ap read_by call;
              }
        ]
      ]

  -- A call ends, and gives back the lock of its scope.
  pub end-Locks :
      (k id : Text) (s t : LiveScope)
      → lookup k scopes ≡ some s
      → Within t s
      → s.initialization ≡ some id
      → Locks (insert k t scopes) (remove id attaching)
  end-Locks k id s t h w mine other j b u eb eu hu = elim (Bool-cases (text_eq id other)) [
    | inl e ↦ cc (rw (lookup-remove, e) at eb)
    | inr e ↦
        let call : lookup other attaching ≡ some b = rw (lookup-remove, e) at eb in
        elim (lookup-insert_cases k j t scopes eu) [
          | inr old ↦ p other j b u call old hu
          | inl (same, value) ↦
              let theirs =
                (p other k b s call h
                  (w other (subst (λ x. holds other x ≡ true) (sym value) hu))).lock in
              absurd (ground (arith, e, text_eq_refl id, ap (text_eq id) (one_lock mine theirs)))
        ]
  ]

  pub forget-Locks : (id : Text) → Locks scopes (remove id attaching)
  forget-Locks id other j b u eb = p other j b u (lookup-remove_kept id other attaching eb)

  -- A call that fails gives back the lock if it has it.
  pub unlocked-Locks :
      (k id : Text) (o : Option LiveScope)
      → lookup k scopes ≡ o
      → Locks (unlocked id o k scopes) (remove id attaching)
  unlocked-Locks k id none h = forget-Locks id
  unlocked-Locks k id (some s) h = elim (Bool-cases (locked_by id s.initialization)) [
    | inr e ↦ rw e (forget-Locks id)
    | inl e ↦ rw e (end-Locks k id s (lock none s) h (λ _ x. x) (locked_sound s.initialization e))
  ]
    where
      locked_sound : (who : Option Text) → locked_by id who ≡ true → who ≡ some id
      locked_sound none e = absurd (ground arith)
      locked_sound (some w) e = ap some (text_eq_sound w id e)
