-- ===== src/Registry/Closing.antt =====
-- The end of a vault's views (src/daemon/vault_registry.rs): after `close`, or after another directory has
-- taken the vault's place.
use obsidian_mcp.Common.{
  ◌≡◌, refl, sym, ap, subst, ◌⊎◌, inl, inr, ℕ, Bool, true, false, ◌||◌, Option, none, some, [],
  arith, Bool-cases,
}
use obsidian_mcp.Text.{Text}
use obsidian_mcp.Errors.{Result, err}
use obsidian_mcp.Map.{Map, lookup}
use obsidian_mcp.Map.Laws.{lookup-nil}
use obsidian_mcp.Exclude.{ExcludeSet}
use obsidian_mcp.Registry.{
  Views, LiveScope, Attach, VaultAttachment, close, replace_root, by_holder, retire_all, unattached,
  context_for_holder,
}
use obsidian_mcp.Registry.Calls.{finish_attach, fail_attach}
use obsidian_mcp.Registry.Holding.{reserve, drop_attachment}
use obsidian_mcp.Registry.Retirement.{live}
use obsidian_mcp.Registry.Reached.{reached-InScope}
use obsidian_mcp.Registry.Runs.{
  Step, reserving, beginning, finishing, failing, dropping, closing, replacing, Reachable, stepped,
}

-- Some steps later.
pub data Later (v : Views) : Views → Type 0 where
  now : Later v v
  next : {u w : Views} → Later v u → Step u w → Later v w

-- The views have ended.
abbrev Shut : Views → Type 0
Shut v = ((v.replaced || v.closed) ≡ true) × (v.scopes ≡ [])

abbrev pub Ended : Views → Views → Type 0
Ended v u = (u ≡ close v) ⊎ (u ≡ replace_root v)

close-Shut : (v : Views) → Shut (close v)
unfolding close retire_all
close-Shut v = (ground arith, refl)

replace_root-Shut : (v : Views) → Shut (replace_root v)
unfolding replace_root retire_all
replace_root-Shut v = (refl, refl)

reserve-refused :
    (v : Views) (policy : Result (ExcludeSet × Result Text)) (watch : Bool) (random : Option Text)
    (current : Option VaultAttachment)
    → Shut v
    → reserve policy watch random current v ≡ (v, err unattached)
unfolding reserve
reserve-refused v policy watch random current (shut, _) = rw shut refl

lookup-scopes : (k : Text) (m : Map LiveScope) → m ≡ [] → lookup k m ≡ none
lookup-scopes k m e = rw e (lookup-nil k)

fail_attach-Shut : (v : Views) (id : Text) (a : Attach) → Shut v → Shut (fail_attach id a v)
unfolding fail_attach
fail_attach-Shut v id a (shut, empty) = (shut, rw (lookup-scopes a.scope_id v.scopes empty) empty)

finish_attach-failed :
    (v : Views) (id : Text) (a : Attach)
    → Shut v
    → finish_attach id a v ≡ (fail_attach id a v, err unattached)
unfolding finish_attach
finish_attach-failed v id a (_, empty) = rw (lookup-scopes a.scope_id v.scopes empty) refl

by_holder-none : (id : Text) (m : Map LiveScope) → m ≡ [] → by_holder id m ≡ none
unfolding by_holder
by_holder-none id m e = rw e refl

drop_attachment-Shut : (v : Views) (a : VaultAttachment) → Shut v → drop_attachment a v ≡ v
unfolding drop_attachment
drop_attachment-Shut v a (_, empty) = rw (lookup-scopes a.scope_id v.scopes empty) refl

step-Shut : {v w : Views} → Step v w → Shut v → Shut w
step-Shut (reserving v policy watch random current d) p =
    subst Shut (sym (ap (λ r. r.0) (reserve-refused v policy watch random current p))) p
step-Shut (beginning v id k s found free) p = cc (sym (by_holder-none id v.scopes p.1), found)
step-Shut (finishing v id a h) p =
    subst Shut (sym (ap (λ r. r.0) (finish_attach-failed v id a p))) (fail_attach-Shut v id a p)
step-Shut (failing v id a h) p = fail_attach-Shut v id a p
step-Shut (dropping v a) p = subst Shut (sym (drop_attachment-Shut v a p)) p
step-Shut (closing v) p = close-Shut v
step-Shut (replacing v) p = replace_root-Shut v

Later-Shut : {v w : Views} → Shut v → Later v w → Shut w
Later-Shut p now = p
Later-Shut p (next l s) = step-Shut s (Later-Shut p l)

Later-Reachable : {v w : Views} → Reachable v → Later v w → Reachable w
Later-Reachable r now = r
Later-Reachable r (next l s) = stepped (Later-Reachable r l) s

Ended-Shut : (v : Views) {u : Views} → Ended v u → Shut u
Ended-Shut v (inl e) = subst Shut (sym e) (close-Shut v)
Ended-Shut v (inr e) = subst Shut (sym e) (replace_root-Shut v)

Ended-Reachable : {v u : Views} → Reachable v → Ended v u → Reachable u
Ended-Reachable {v} r (inl e) = subst Reachable (sym e) (stepped r (closing v))
Ended-Reachable {v} r (inr e) = subst Reachable (sym e) (stepped r (replacing v))

-- However many steps follow a close or a replacement, the views refuse every reservation and every call
-- of attach that is still under way, and no holder has a context.
pub Ended-for_good :
    (v : Views) {u w : Views}
    → Ended v u
    → Later u w
    → (policy : Result (ExcludeSet × Result Text)) (watch : Bool) (random : Option Text)
      (current : Option VaultAttachment) (id : Text) (a : Attach)
    → (reserve policy watch random current w ≡ (w, err unattached))
      × (finish_attach id a w ≡ (fail_attach id a w, err unattached))
      × (context_for_holder id w ≡ none)
unfolding context_for_holder
Ended-for_good v {u} {w} e l policy watch random current id a =
    let p = Later-Shut (Ended-Shut v e) l in
    (
      reserve-refused w policy watch random current p,
      finish_attach-failed w id a p,
      rw (by_holder-none id w.scopes p.1) refl,
    )

no_call : (id : Text) (m : Map Attach) {a : Attach} → m ≡ [] → lookup id m ≡ some a → ⊥
no_call id m e h = cc (sym (lookup-nil {V = Attach} id), rw e at h)

no_scope : (k : Text) (m : Map LiveScope) {s : LiveScope} → m ≡ [] → lookup k m ≡ some s → ⊥
no_scope k m e h = cc (sym (lookup-scopes k m e), h)

-- After a close or a replacement, once no call of attach is under way, no context watches the vault or
-- is active.
pub Ended-quiet :
    {v u w : Views}
    → Reachable v
    → Ended v u
    → Later u w
    → w.attaching ≡ []
    → (c : ℕ) → live (w.contexts c) ≡ false
Ended-quiet {v} {u} {w} r e l calls c = elim (Bool-cases (live (w.contexts c))) [
  | inr h ↦ h
  | inl h ↦ elim (reached-InScope c (Later-Reachable (Ended-Reachable r e) l) h) [
    | inl (k, s, x, _) ↦ absurd (no_scope k w.scopes (Later-Shut (Ended-Shut v e) l).1 x)
    | inr (id, a, x, _, _) ↦ absurd (no_call id w.attaching calls x)
  ]
]
