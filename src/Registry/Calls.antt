-- ===== src/Registry/Calls.antt =====
-- The steps of `attach` in the daemon (src/daemon/vault_registry.rs): it reads a scope under the scope's
-- lock, and publishes the context or fails.
use obsidian_mcp.Common.{
  ℕ, ◌+◌, Bool, true, false, not, ◌&&◌, ◌||◌, Option, none, some, if◌then◌else◌,
}
use obsidian_mcp.Text.{Text, text_eq}
use obsidian_mcp.Map.{Map, lookup, insert, remove}
use obsidian_mcp.Errors.{Result, ok, err}
use obsidian_mcp.Registry.{
  VaultContext, LiveScope, Attach, Views, idle, store, watching, holds, unattached,
}

abbrev pub lock : Option Text → LiveScope → LiveScope
lock who s = record s { initialization = who }

-- `attach`, where it has the lock and reads the scope: a context that is there gets a new watcher if it
-- has none and one is wanted, and a new context is opened where there is none.
abbrev pub attach_of : Text → LiveScope → Views → Option ℕ → Attach
attach_of scope_id s v (some c) = record {
  scope_id = scope_id;
  context = c;
  opened = false;
  pending = watching s && not (v.contexts c).watcher;
}
attach_of scope_id s v none = record {
  scope_id = scope_id;
  context = v.next_context;
  opened = true;
  pending = false;
}

abbrev pub contexts_with : LiveScope → Views → Option ℕ → ℕ → VaultContext
contexts_with s v (some c) = v.contexts
contexts_with s v none =
    store v.next_context (record { watcher = watching s; active = false }) v.contexts

unfoldable pub begin_attach : Text → Text → LiveScope → Views → Views
begin_attach id scope_id s v = record v {
  scopes = insert scope_id (lock (some id) s) v.scopes;
  contexts = contexts_with s v s.context;
  next_context = v.next_context + 1;
  attaching = insert id (attach_of scope_id s v s.context) v.attaching;
}

abbrev pub locked_by : Text → Option Text → Bool
locked_by id none = false
locked_by id (some who) = text_eq who id

-- The lock of a scope whose `attach` ends, and what is left of a context that is not published.
abbrev pub unlocked : Text → Option LiveScope → Text → Map LiveScope → Map LiveScope
unlocked id none scope_id scopes = scopes
unlocked id (some s) scope_id scopes =
    if locked_by id s.initialization then insert scope_id (lock none s) scopes else scopes

abbrev pub let_go : Attach → (ℕ → VaultContext) → ℕ → VaultContext
let_go a contexts = if a.opened then store a.context idle contexts else contexts

-- `attach` that fails: the context that it opened is dropped.
unfoldable pub fail_attach : Text → Attach → Views → Views
fail_attach id a v = record v {
  scopes = unlocked id (lookup a.scope_id v.scopes) a.scope_id v.scopes;
  contexts = let_go a v.contexts;
  attaching = remove id v.attaching;
}

abbrev pub watched : Bool → Attach → VaultContext → VaultContext
watched true a x = record { watcher = x.watcher || a.pending; active = true }
watched false a x = record { watcher = false; active = true }

-- `attach`, where it publishes the context
unfoldable pub publish : Text → Attach → LiveScope → Views → Views
publish id a s v = record v {
  scopes =
      insert a.scope_id (record s { context = some a.context; initialization = none }) v.scopes;
  contexts = store a.context (watched (watching s) a (v.contexts a.context)) v.contexts;
  attaching = remove id v.attaching;
}

abbrev holding : Text → Option LiveScope → Option LiveScope
holding id none = none
holding id (some s) = if holds id s then some s else none

abbrev finish_with : Text → Attach → Option LiveScope → Views → Views × Result ℕ
finish_with id a none v = (fail_attach id a v, err unattached)
finish_with id a (some s) v = (publish id a s v, ok a.context)

-- the last part of `attach`
unfoldable pub finish_attach : Text → Attach → Views → Views × Result ℕ
finish_attach id a v = finish_with id a (holding id (lookup a.scope_id v.scopes)) v
