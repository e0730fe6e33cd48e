-- ===== src/Tests/Views.antt =====
-- Runs of src/daemon/vault_registry.rs: one connection attaches, and the daemon closes.
use obsidian_mcp.Common.{◌≡◌, refl, ◌⊎◌, inl, true, false, none, some, [], ◌∷◌}
use obsidian_mcp.Text.{Text, codes}
use obsidian_mcp.Errors.{Result, ok, err}
use obsidian_mcp.Map.{lookup, insert, remove}
use obsidian_mcp.Map.Laws.{lookup-nil}
use obsidian_mcp.Exclude.{ExcludeSet}
use obsidian_mcp.Registry.{
  Views, LiveScope, Attach, close, by_holder, unattached, context_for_holder, watching, retire_all,
}
use obsidian_mcp.Registry.Calls.{begin_attach, finish_attach, fail_attach, publish}
use obsidian_mcp.Registry.Holding.{reserve, drop_attachment, observe_floor, enter_holder}
use obsidian_mcp.Registry.Scopes.{Sound}
use obsidian_mcp.Registry.Retirement.{live, InScope, InAttach}
use obsidian_mcp.Registry.Reached.{reached-InScope, reached-Sound}
use obsidian_mcp.Registry.Runs.{
  Reachable, begun, stepped, reserving, beginning, finishing, new_views,
}
use obsidian_mcp.Registry.Closing.{now, Ended-for_good, Ended-quiet}
use obsidian_mcp.Registry.Serving.{finish_attach-context_for_holder}

abbrev floor : ExcludeSet
floor = record { set = λ _. false; patterns = []; private_memory = false }

abbrev policy : Result (ExcludeSet × Result Text)
policy = ok (floor, ok (codes "s"))

abbrev holder : Text
holder = codes "h"

abbrev reserved : Views
reserved = (reserve policy true (some holder) none new_views).0

abbrev scope : LiveScope
scope = record { initialization = none; context = none; holders = (holder, true) ∷ [] }

abbrev attaching : Views
attaching = begin_attach holder (codes "s") scope reserved

abbrev call : Attach
call = record { scope_id = codes "s"; context = 0; opened = true; pending = false }

abbrev attached : Views
attached = (finish_attach holder call attaching).0

reserved-Reachable : Reachable reserved
reserved-Reachable = stepped begun (
    reserving new_views policy true (some holder) none
      (λ k s h. cc (lookup-nil {V = LiveScope} k, h), lookup-nil holder))

attaching-Reachable : Reachable attaching
unfolding reserve observe_floor enter_holder by_holder lookup insert retire_all
attaching-Reachable =
    stepped reserved-Reachable (beginning reserved holder (codes "s") scope refl refl)

under_way : lookup holder attaching.attaching ≡ some call
unfolding reserve observe_floor enter_holder lookup insert begin_attach retire_all
under_way = refl

attached-Reachable : Reachable attached
attached-Reachable = stepped attaching-Reachable (finishing attaching holder call under_way)

-- The context watches and is active until the holder leaves.
leaves :
    (live (attached.contexts 0) ≡ true)
    × (live ((drop_attachment (record { scope_id = codes "s"; id = holder }) attached).contexts 0)
        ≡ false)
unfolding reserve observe_floor enter_holder lookup insert remove begin_attach finish_attach publish
    drop_attachment retire_all
leaves = (refl, refl)

reached-InScope_example : InScope attached.scopes 0 ⊎ InAttach attached.attaching 0
unfolding reserve observe_floor enter_holder lookup insert remove begin_attach finish_attach publish
    retire_all
reached-InScope_example = reached-InScope 0 attached-Reachable refl

reached-Sound_example : Sound attached.scopes
reached-Sound_example = reached-Sound attached-Reachable

finish_attach-context_for_holder_example :
    (context_for_holder holder attached ≡ some 0)
    × ((attached.contexts 0).active ≡ true)
    × ((attached.contexts 0).watcher ≡ true
        → (s : LiveScope) × (lookup (codes "s") attached.scopes ≡ some s) × (watching s ≡ true))
unfolding reserve observe_floor enter_holder lookup insert begin_attach finish_attach retire_all
finish_attach-context_for_holder_example =
    finish_attach-context_for_holder holder call attaching-Reachable under_way refl

Ended-for_good_example :
    (reserve policy true (some holder) none (close attaching) ≡ (close attaching, err unattached))
    × (finish_attach holder call (close attaching)
        ≡ (fail_attach holder call (close attaching), err unattached))
    × (context_for_holder holder (close attaching) ≡ none)
Ended-for_good_example =
    Ended-for_good attaching (inl refl) now policy true (some holder) none holder call

Ended-quiet_example : live ((close attached).contexts 0) ≡ false
unfolding reserve observe_floor enter_holder lookup insert remove begin_attach finish_attach publish
    close retire_all
Ended-quiet_example = Ended-quiet attached-Reachable (inl refl) now refl 0
