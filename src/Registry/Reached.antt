-- ===== src/Registry/Reached.antt =====
-- What holds in every state that the steps of a vault's views lead to (src/daemon/vault_registry.rs).
use obsidian_mcp.Common.{
  ◌≡◌, refl, sym, ap, ◌∙◌, ◌⊎◌, inl, inr, ℕ, Bool, true, not, ◌||◌, Option, none, some, [], arith,
  Bool-cases, Option-cases, some-eq, is_some,
}
use obsidian_mcp.Text.{Text, text_eq, is_empty}
use obsidian_mcp.Errors.{Result, ok, err}
use obsidian_mcp.Map.{lookup, insert, remove}
use obsidian_mcp.Map.Laws.{lookup-remove, lookup-nil}
use obsidian_mcp.Exclude.{ExcludeSet}
use obsidian_mcp.Registry.{
  LiveScope, Views, VaultAttachment, close, replace_root, retire_all, holds, watching,
}
use obsidian_mcp.Registry.Holding.{
  reserve, drop_attachment, observe_floor, released, changed, reserve_policy, reserve_scope,
  same_watch, current_scope,
}
use obsidian_mcp.Registry.Runs.{
  Drawn, Step, reserving, beginning, finishing, failing, dropping, closing, replacing, new_views,
  Reachable, begun, stepped,
}
use obsidian_mcp.Registry.Scopes
use obsidian_mcp.Registry.Attaching
use obsidian_mcp.Registry.Retirement
use obsidian_mcp.Registry.Steps.{
  Valid, retire_all-Valid, observe_floor-Valid, enter_holder-Valid, begin_attach-Valid,
  finish_attach-Valid, fail_attach-Valid,
}

observe_floor-Drawn :
    (floor : ExcludeSet) (random : Option Text) (v : Views)
    → Drawn random v
    → Drawn random (observe_floor floor v)
unfolding observe_floor retire_all
observe_floor-Drawn floor none v d = tt
observe_floor-Drawn floor (some id) v (new, free) = elim (Bool-cases (changed v.floor floor)) [
  | inl e ↦ rw e (λ k s h. cc (rw lookup-nil at h), free)
  | inr e ↦ rw e (new, free)
]

reserve_scope-Valid :
    (k : Text) (watch : Bool) (random : Option Text) (c : Option (VaultAttachment × LiveScope))
    (v : Views)
    → Valid v
    → Drawn random v
    → Valid (reserve_scope k watch random c v).0
reserve_scope-Valid k watch none none v p d = p
reserve_scope-Valid k watch (some id) none v p (new, free) =
    enter_holder-Valid k id watch v p new free
reserve_scope-Valid k watch random (some (holder, s)) v p d =
    elim (Bool-cases
      (not (text_eq holder.scope_id k) || not (same_watch watch (lookup holder.id s.holders)))) [
        | inl e ↦ rw e p
        | inr e ↦ rw e p
      ]

reserve-Valid :
    (v : Views) (policy : Result (ExcludeSet × Result Text)) (watch : Bool) (random : Option Text)
    (current : Option VaultAttachment)
    → Valid v
    → Drawn random v
    → Valid (reserve policy watch random current v).0
unfolding reserve
reserve-Valid v policy watch random current p d = elim (Bool-cases (v.replaced || v.closed)) [
  | inl e ↦ rw e p
  | inr e ↦ rw e (reserve_policy-Valid policy)
]
  where
    reserve_policy-Valid :
        (q : Result (ExcludeSet × Result Text)) → Valid (reserve_policy q watch random current v).0
    reserve_policy-Valid (err x) = retire_all-Valid v p
    reserve_policy-Valid (ok (floor, err x)) = observe_floor-Valid floor v p
    reserve_policy-Valid (ok (floor, ok k)) =
        let w = observe_floor floor v in
        reserve_scope-Valid k watch random (current_scope current w.scopes) w
          (observe_floor-Valid floor v p) (observe_floor-Drawn floor random v d)

-- A scope that loses a holder.
released-Valid :
    (k id : Text) (s : LiveScope) (v : Views)
    → Valid v
    → lookup k v.scopes ≡ some s
    → Valid (released k (record s { holders = remove id s.holders }) v)
released-Valid k id s v p h =
    let t : LiveScope = record s { holders = remove id s.holders } in
    let fewer : Scopes.Within t s =
      λ other e. removed other (Option-cases (lookup other s.holders)) e in
    elim (Bool-cases (is_empty t.holders)) [
      | inl e ↦ rw e (record {
        sound = Scopes.remove-Sound v.scopes k p.sound;
        locks = Attaching.remove-Locks v.scopes v.attaching p.locks k;
        owned = Retirement.leave-Owned v.scopes v.attaching v.contexts p.owned k s h;
      })
      | inr e ↦
          let sound = Scopes.change-Sound v.scopes k t p.sound h fewer e in
          let locks = Attaching.change-Locks v.scopes v.attaching p.locks k t h fewer refl refl in
          let owned =
            Retirement.keep-Owned v.scopes v.attaching v.contexts p.owned k t
              (λ o x. ap (λ u. u.context) (some-eq (sym x ∙ h))) in
          elim (Bool-cases (watching t)) [
            | inl w ↦ rw (e, w) (record { sound = sound; locks = locks; owned = owned })
            | inr w ↦
                rw (e, w)
                  (record {
                    sound = sound;
                    locks = locks;
                    owned =
                        Retirement.stop_watcher-Owned (insert k t v.scopes) v.attaching v.contexts
                          owned s.context;
                  })
          ]
    ]
  where
    removed :
        (other : Text)
        → (lookup other s.holders ≡ none) ⊎ ((b : Bool) × (lookup other s.holders ≡ some b))
        → is_some (lookup other (remove id s.holders)) ≡ true
        → holds other s ≡ true
    removed other (inr (b, e)) x = rw e refl
    removed other (inl e) x = absurd (ground (arith, rw (lookup-remove, e) at x))

drop_attachment-Valid : (a : VaultAttachment) (v : Views) → Valid v → Valid (drop_attachment a v)
unfolding drop_attachment
drop_attachment-Valid a v p = elim (Option-cases (lookup a.scope_id v.scopes)) [
  | inl e ↦ rw e p
  | inr (s, e) ↦ elim (Bool-cases (holds a.id s)) [
    | inl k ↦ rw (e, k) (released-Valid a.scope_id a.id s v p e)
    | inr k ↦ rw (e, k) p
  ]
]

close-Valid : (v : Views) → Valid v → Valid (close v)
unfolding close
close-Valid v p =
    let q = retire_all-Valid v p in record { sound = q.sound; locks = q.locks; owned = q.owned }

replace_root-Valid : (v : Views) → Valid v → Valid (replace_root v)
unfolding replace_root
replace_root-Valid v p =
    let q = retire_all-Valid v p in record { sound = q.sound; locks = q.locks; owned = q.owned }

step-Valid : {v w : Views} → Step v w → Valid v → Valid w
step-Valid (reserving v policy watch random current d) p =
    reserve-Valid v policy watch random current p d
step-Valid (beginning v id k s found free) p = begin_attach-Valid id k s v p found free
step-Valid (finishing v id a h) p = finish_attach-Valid id a v p h
step-Valid (failing v id a h) p = fail_attach-Valid id a v p h
step-Valid (dropping v a) p = drop_attachment-Valid a v p
step-Valid (closing v) p = close-Valid v p
step-Valid (replacing v) p = replace_root-Valid v p

new_views-Valid : Valid new_views
new_views-Valid = record {
  sound = Scopes.nil-Sound;
  locks = Attaching.nil-Locks [];
  owned = λ c h. absurd (ground (arith, h));
}

pub reached-Valid : {v : Views} → Reachable v → Valid v
reached-Valid begun = new_views-Valid
reached-Valid (stepped r s) = step-Valid s (reached-Valid r)

-- In every state that the steps reach, a context that watches the vault or is active is the context of a
-- scope, or of the call that is opening it.
pub reached-InScope :
    {v : Views} (c : ℕ)
    → Reachable v
    → Retirement.live (v.contexts c) ≡ true
    → Retirement.InScope v.scopes c ⊎ Retirement.InAttach v.attaching c
reached-InScope c r h = (reached-Valid r).owned c h

-- In every state that the steps reach, each scope has a holder, and no holder has two scopes.
pub reached-Sound : {v : Views} → Reachable v → Scopes.Sound v.scopes
reached-Sound r = (reached-Valid r).sound
