-- ===== src/Registry/Runs.antt =====
-- The steps that change a vault's views (src/daemon/vault_registry.rs), in any order.
use obsidian_mcp.Common.{◌≡◌, Bool, false, Option, none, some, []}
use obsidian_mcp.Text.{Text}
use obsidian_mcp.Errors.{Result}
use obsidian_mcp.Map.{lookup}
use obsidian_mcp.Exclude.{ExcludeSet}
use obsidian_mcp.Registry.{
  LiveScope, Attach, Views, VaultAttachment, idle, by_holder, close, replace_root,
}
use obsidian_mcp.Registry.Holding.{reserve, drop_attachment}
use obsidian_mcp.Registry.Calls.{begin_attach, finish_attach, fail_attach}
use obsidian_mcp.Registry.Scopes

-- A drawn identifier that no holder and no call has.
abbrev pub Drawn : Option Text → Views → Type 0
Drawn none v = Unit
Drawn (some id) v = Scopes.New id v.scopes × (lookup id v.attaching ≡ none)

-- One step: each takes one lock of the views.
pub data Step : Views → Views → Type 0 where
  reserving :
      (v : Views) (policy : Result (ExcludeSet × Result Text)) (watch : Bool) (random : Option Text)
      (current : Option VaultAttachment)
      → Drawn random v
      → Step v (reserve policy watch random current v).0
  beginning :
      (v : Views) (id k : Text) (s : LiveScope)
      → by_holder id v.scopes ≡ some (k, s)
      → s.initialization ≡ none
      → Step v (begin_attach id k s v)
  finishing :
      (v : Views) (id : Text) (a : Attach)
      → lookup id v.attaching ≡ some a
      → Step v (finish_attach id a v).0
  failing :
      (v : Views) (id : Text) (a : Attach)
      → lookup id v.attaching ≡ some a
      → Step v (fail_attach id a v)
  dropping : (v : Views) (a : VaultAttachment) → Step v (drop_attachment a v)
  closing : (v : Views) → Step v (close v)
  replacing : (v : Views) → Step v (replace_root v)

-- `VaultViews::default`, with no call under way and no context live
abbrev pub new_views : Views
new_views = record {
  replaced = false;
  closed = false;
  floor = none;
  scopes = [];
  contexts = λ _. idle;
  next_context = 0;
  attaching = [];
}

pub data Reachable : Views → Type 0 where
  begun : Reachable new_views
  stepped : {v w : Views} → Reachable v → Step v w → Reachable w
