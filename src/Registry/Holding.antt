-- ===== src/Registry/Holding.antt =====
-- The holders of a vault's scopes (src/daemon/vault_registry.rs): `reserve` and the end of an attachment.
use obsidian_mcp.Common.{Bool, true, false, not, ◌||◌, Option, none, some, [], if◌then◌else◌}
use obsidian_mcp.Text.{Text, text_eq, is_empty}
use obsidian_mcp.Map.{Map, lookup, insert, remove, get_or}
use obsidian_mcp.Errors.{Result, ok, err, invalid_path, other}
use obsidian_mcp.Exclude.{ExcludeSet}
use obsidian_mcp.Registry.{
  LiveScope, VaultAttachment, Views, watching, holds, retire, stop_watcher, retire_all, by_holder,
  unattached, same_patterns,
}

abbrev pub changed : Option ExcludeSet → ExcludeSet → Bool
changed none floor = true
changed (some previous) floor = not (same_patterns previous.patterns floor.patterns)

-- `reserve`, where it observes the floor
unfoldable pub observe_floor : ExcludeSet → Views → Views
observe_floor floor v =
    if changed v.floor floor then record (retire_all v) { floor = some floor } else v

abbrev pub new_scope : LiveScope
new_scope = record { initialization = none; context = none; holders = [] }

abbrev pub hold : Text → Bool → LiveScope → LiveScope
hold id watch s = record s { holders = insert id watch s.holders }

-- `reserve`, where it enters a new holder
unfoldable pub enter_holder : Text → Bool → Text → Views → Views
enter_holder scope_id watch id v = record v {
  scopes = insert scope_id (hold id watch (get_or new_scope scope_id v.scopes)) v.scopes;
}

abbrev granted : Text → Bool → Option Text → Views → Views × Result (Option VaultAttachment)
granted scope_id watch none v = (v, err other)
granted scope_id watch (some id) v =
    (enter_holder scope_id watch id v, ok (some (record { scope_id = scope_id; id = id })))

abbrev pub same_watch : Bool → Option Bool → Bool
same_watch w none = false
same_watch true (some b) = b
same_watch false (some b) = not b

abbrev retained :
    VaultAttachment → Text → Bool → LiveScope → Views → Views × Result (Option VaultAttachment)
retained holder scope_id watch s v =
    if not (text_eq holder.scope_id scope_id) || not (same_watch watch (lookup holder.id s.holders))
    then (v, err invalid_path)
    else (v, ok none)

abbrev pub current_scope :
    Option VaultAttachment → Map LiveScope → Option (VaultAttachment × LiveScope)
current_scope none scopes = none
current_scope (some holder) scopes = elim (by_holder holder.id scopes) [
  | none ↦ none
  | some (k, s) ↦ some (holder, s)
]

abbrev pub reserve_scope :
    Text
    → Bool
    → Option Text
    → Option (VaultAttachment × LiveScope)
    → Views
    → Views × Result (Option VaultAttachment)
reserve_scope scope_id watch random none v = granted scope_id watch random v
reserve_scope scope_id watch random (some (holder, s)) v = retained holder scope_id watch s v

abbrev reserve_observed :
    Result Text
    → Bool
    → Option Text
    → Option VaultAttachment
    → Views
    → Views × Result (Option VaultAttachment)
reserve_observed (err e) watch random current v = (v, err e)
reserve_observed (ok scope_id) watch random current v =
    reserve_scope scope_id watch random (current_scope current v.scopes) v

abbrev pub reserve_policy :
    Result (ExcludeSet × Result Text)
    → Bool
    → Option Text
    → Option VaultAttachment
    → Views
    → Views × Result (Option VaultAttachment)
reserve_policy (err e) watch random current v = (retire_all v, err e)
reserve_policy (ok (floor, scope)) watch random current v =
    reserve_observed scope watch random current (observe_floor floor v)

-- `reserve` after the policy was read: the floor, and the scope of the effective policy
unfoldable pub reserve :
    Result (ExcludeSet × Result Text)
    → Bool
    → Option Text
    → Option VaultAttachment
    → Views
    → Views × Result (Option VaultAttachment)
reserve policy watch random current v =
    if v.replaced || v.closed
    then (v, err unattached)
    else reserve_policy policy watch random current v

abbrev pub released : Text → LiveScope → Views → Views
released scope_id s v =
    if is_empty s.holders
    then record v { scopes = remove scope_id v.scopes; contexts = retire s.context v.contexts }
    else if not (watching s)
    then record v {
      scopes = insert scope_id s v.scopes;
      contexts = stop_watcher s.context v.contexts;
    }
    else record v { scopes = insert scope_id s v.scopes }

abbrev let_holder_go : Text → Text → Option LiveScope → Views → Views
let_holder_go scope_id id none v = v
let_holder_go scope_id id (some s) v =
    if holds id s then released scope_id (record s { holders = remove id s.holders }) v else v

-- `VaultAttachment::drop`
unfoldable pub drop_attachment : VaultAttachment → Views → Views
drop_attachment a v = let_holder_go a.scope_id a.id (lookup a.scope_id v.scopes) v
