-- ===== src/Registry/Steps.antt =====
-- The steps that change a vault's views (src/daemon/vault_registry.rs), in any order, and what holds in
-- every state that they lead to.
use obsidian_mcp.Common.{
  ◌≡◌, refl, sym, ap, ◌∙◌, inl, inr, ℕ, Bool, true, Option, none, some, Bool-cases, Option-cases,
  some-eq,
}
use obsidian_mcp.Text.{Text}
use obsidian_mcp.Map.{Map, lookup, insert, get_or}
use obsidian_mcp.Exclude.{ExcludeSet}
use obsidian_mcp.Registry.{
  VaultContext, LiveScope, Attach, Views, by_holder, retire_all, holds, watching,
}
use obsidian_mcp.Registry.Calls.{
  begin_attach, finish_attach, fail_attach, publish, lock, unlocked, locked_by, attach_of, watched,
}
use obsidian_mcp.Registry.Holding.{observe_floor, enter_holder, hold, new_scope, changed}
use obsidian_mcp.Registry.Scopes
use obsidian_mcp.Registry.Attaching
use obsidian_mcp.Registry.Retirement
use obsidian_mcp.Registry.Owners

-- The invariant.
pub record Valid (v : Views) : Type 0 where
  pub sound : Scopes.Sound v.scopes
  pub locks : Attaching.Locks v.scopes v.attaching
  pub owned : Retirement.Owned v.scopes v.attaching v.contexts

pub retire_all-Valid : (v : Views) → Valid v → Valid (retire_all v)
unfolding retire_all
retire_all-Valid v p = record {
  sound = Scopes.nil-Sound;
  locks = Attaching.nil-Locks v.attaching;
  owned = Retirement.retire_all-Owned v.scopes v.attaching v.contexts p.owned;
}

pub observe_floor-Valid : (floor : ExcludeSet) (v : Views) → Valid v → Valid (observe_floor floor v)
unfolding observe_floor
observe_floor-Valid floor v p = elim (Bool-cases (changed v.floor floor)) [
  | inr e ↦ rw e p
  | inl e ↦
      let q = retire_all-Valid v p in
      rw e (record { sound = q.sound; locks = q.locks; owned = q.owned })
]

pub enter_holder-Valid :
    (k id : Text) (watch : Bool) (v : Views)
    → Valid v
    → Scopes.New id v.scopes
    → lookup id v.attaching ≡ none
    → Valid (enter_holder k watch id v)
unfolding enter_holder
enter_holder-Valid k id watch v p new free =
    let o = get_or new_scope k v.scopes in
    record {
      sound = Scopes.enter-Sound v.scopes k id watch p.sound new;
      locks = Attaching.enter-Locks v.scopes v.attaching p.locks k id watch free;
      owned =
          Retirement.keep-Owned v.scopes v.attaching v.contexts p.owned k (hold id watch o)
            (λ s e. rw (e, get_or) refl);
    }

attach_of-read_by :
    (k : Text) (s : LiveScope) (v : Views) (o : Option ℕ)
    → o ≡ Attaching.read_by (attach_of k s v o)
attach_of-read_by k s v none = refl
attach_of-read_by k s v (some c) = refl

attach_of-scope_id :
    (k : Text) (s : LiveScope) (v : Views) (o : Option ℕ) → (attach_of k s v o).scope_id ≡ k
attach_of-scope_id k s v none = refl
attach_of-scope_id k s v (some c) = refl

pub begin_attach-Valid :
    (id k : Text) (s : LiveScope) (v : Views)
    → Valid v
    → by_holder id v.scopes ≡ some (k, s)
    → s.initialization ≡ none
    → Valid (begin_attach id k s v)
unfolding begin_attach
begin_attach-Valid id k s v p found free =
    let (at, held) = Scopes.by_holder_sound id v.scopes p.sound.unique found in
    let new : lookup id v.attaching ≡ none = elim (Option-cases (lookup id v.attaching)) [
      | inl e ↦ e
      | inr (a, e) ↦ cc (sym free, (p.locks id k a s e at held).lock)
    ] in
    let scopes = insert k (lock (some id) s) v.scopes in
    record {
      sound =
          Scopes.change-Sound v.scopes k (lock (some id) s) p.sound at (λ _ h. h)
            (p.sound.held k at);
      locks =
          Attaching.begin-Locks v.scopes v.attaching p.locks k id s (attach_of k s v s.context)
            p.sound at held free (attach_of-scope_id k s v s.context)
            (attach_of-read_by k s v s.context);
      owned =
          Owners.begin-Owned scopes v.attaching v.contexts
            (Retirement.keep-Owned v.scopes v.attaching v.contexts p.owned k (lock (some id) s)
              (λ o e. ap (λ t. t.context) (some-eq (sym e ∙ at))))
            k id s v s.context new refl;
    }

unlocked-Sound :
    (scopes : Map LiveScope) (k id : Text) (o : Option LiveScope)
    → lookup k scopes ≡ o
    → Scopes.Sound scopes
    → Scopes.Sound (unlocked id o k scopes)
unlocked-Sound scopes k id none h p = p
unlocked-Sound scopes k id (some s) h p = elim (Bool-cases (locked_by id s.initialization)) [
  | inl e ↦ rw e (Scopes.change-Sound scopes k (lock none s) p h (λ _ x. x) (p.held k h))
  | inr e ↦ rw e p
]

unlocked-Owned :
    (scopes : Map LiveScope) (attaching : Map Attach) (contexts : ℕ → VaultContext) (k id : Text)
    (o : Option LiveScope)
    → lookup k scopes ≡ o
    → Retirement.Owned scopes attaching contexts
    → Retirement.Owned (unlocked id o k scopes) attaching contexts
unlocked-Owned scopes attaching contexts k id none h p = p
unlocked-Owned scopes attaching contexts k id (some s) h p =
    elim (Bool-cases (locked_by id s.initialization)) [
      | inl e ↦ rw e (
          Retirement.keep-Owned scopes attaching contexts p k (lock none s)
            (λ o x. ap (λ t. t.context) (some-eq (sym x ∙ h))))
      | inr e ↦ rw e p
    ]

pub fail_attach-Valid :
    (id : Text) (a : Attach) (v : Views)
    → Valid v
    → lookup id v.attaching ≡ some a
    → Valid (fail_attach id a v)
unfolding fail_attach
fail_attach-Valid id a v p h =
    let o = lookup a.scope_id v.scopes in
    record {
      sound = unlocked-Sound v.scopes a.scope_id id o refl p.sound;
      locks = Attaching.unlocked-Locks v.scopes v.attaching p.locks a.scope_id id o refl;
      owned =
          Owners.let_go-Owned (unlocked id o a.scope_id v.scopes) v.attaching v.contexts
            (unlocked-Owned v.scopes v.attaching v.contexts a.scope_id id o refl p.owned) id a h;
    }

pub publish-Valid :
    (id : Text) (a : Attach) (s : LiveScope) (v : Views)
    → Valid v
    → lookup id v.attaching ≡ some a
    → lookup a.scope_id v.scopes ≡ some s
    → holds id s ≡ true
    → Valid (publish id a s v)
unfolding publish
publish-Valid id a s v p ha hs held =
    let known = p.locks id a.scope_id a s ha hs held in
    let t : LiveScope = record s { context = some a.context; initialization = none } in
    record {
      sound =
          Scopes.change-Sound v.scopes a.scope_id t p.sound hs (λ _ x. x)
            (p.sound.held a.scope_id hs);
      locks =
          Attaching.end-Locks v.scopes v.attaching p.locks a.scope_id id s t hs (λ _ x. x)
            known.lock;
      owned =
          Owners.publish-Owned v.scopes v.attaching v.contexts p.owned id a s t
            (watched (watching s) a (v.contexts a.context)) ha hs known.context refl;
    }

pub finish_attach-Valid :
    (id : Text) (a : Attach) (v : Views)
    → Valid v
    → lookup id v.attaching ≡ some a
    → Valid (finish_attach id a v).0
unfolding finish_attach
finish_attach-Valid id a v p h = elim (Option-cases (lookup a.scope_id v.scopes)) [
  | inl e ↦ rw e (fail_attach-Valid id a v p h)
  | inr (s, e) ↦ elim (Bool-cases (holds id s)) [
    | inl k ↦ rw (e, k) (publish-Valid id a s v p h e k)
    | inr k ↦ rw (e, k) (fail_attach-Valid id a v p h)
  ]
]
