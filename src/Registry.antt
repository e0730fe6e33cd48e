-- ===== src/Registry.antt =====
-- The views of one vault in the daemon (src/daemon/vault_registry.rs): `VaultViews`, the reservations
-- and attachments of its connections, and the steps of `attach`. A context is a number, and the shared
-- contexts are a store. The identifiers of holders, the reading of policies and the opening of contexts
-- and watchers are outcomes that come from elsewhere.
pub mod Holding
pub mod Calls
pub mod Scopes
pub mod Runs
pub mod Steps
pub mod Retirement
pub mod Attaching
pub mod Owners
pub mod Reached
pub mod Closing
pub mod Serving
use obsidian_mcp.Common.{
  ℕ, ◌+◌, Bool, true, false, not, ◌&&◌, ◌||◌, Option, none, some, List, [], ◌∷◌, any, is_some, ◌==◌,
  if◌then◌else◌,
}
use obsidian_mcp.Text.{Text, text_eq, is_empty}
use obsidian_mcp.Map.{Map, lookup, insert, remove, get_or}
use obsidian_mcp.Errors.{Result, ok, err, VaultError, daemon_rpc, invalid_path, other}
use obsidian_mcp.Exclude.{ExcludeSet}

-- What the registry changes in a `VaultContext`: its watcher, and whether its runtime is active.
pub record VaultContext : Type 0 where
  pub watcher : Bool
  pub active : Bool

abbrev pub idle : VaultContext
idle = record { watcher = false; active = false }

-- `initialization` is the holder that has the lock, if one has.
pub record LiveScope : Type 0 where
  pub initialization : Option Text
  pub context : Option ℕ
  pub holders : Map Bool

-- `VaultAttachment`
pub record VaultAttachment : Type 0 where
  pub scope_id : Text
  pub id : Text

-- An `attach` between its reading of the scope and its end: the context, whether this call opened it,
-- and whether it has a watcher to install.
pub record Attach : Type 0 where
  pub scope_id : Text
  pub context : ℕ
  pub opened : Bool
  pub pending : Bool

-- `VaultViews`, with the registry's `closed`, the store of contexts and the calls that are under way,
-- by holder.
pub record Views : Type 0 where
  pub replaced : Bool
  pub closed : Bool
  pub floor : Option ExcludeSet
  pub scopes : Map LiveScope
  pub contexts : ℕ → VaultContext
  pub next_context : ℕ
  pub attaching : Map Attach

-- `LiveScope::watching`
abbrev pub watching : LiveScope → Bool
watching s = any (λ h. h.1) s.holders

abbrev pub holds : Text → LiveScope → Bool
holds id s = is_some (lookup id s.holders)

abbrev pub store : ℕ → VaultContext → (ℕ → VaultContext) → ℕ → VaultContext
store c x contexts d = if c == d then x else contexts d

abbrev pub retire : Option ℕ → (ℕ → VaultContext) → ℕ → VaultContext
retire none contexts = contexts
retire (some c) contexts = store c idle contexts

-- `VaultContext::stop_watcher`
abbrev pub stop_watcher : Option ℕ → (ℕ → VaultContext) → ℕ → VaultContext
stop_watcher none contexts = contexts
stop_watcher (some c) contexts = store c (record (contexts c) { watcher = false }) contexts

-- the loop of `retire_all`
unfoldable pub retire_scopes : Map LiveScope → (ℕ → VaultContext) → ℕ → VaultContext
retire_scopes [] contexts = contexts
retire_scopes ((id, s) ∷ scopes) contexts = retire_scopes scopes (retire s.context contexts)

-- `retire_all`
unfoldable pub retire_all : Views → Views
retire_all v = record v { floor = none; scopes = []; contexts = retire_scopes v.scopes v.contexts }

-- `by_holder`, with the scope's identifier
unfoldable pub by_holder : Text → Map LiveScope → Option (Text × LiveScope)
by_holder id [] = none
by_holder id ((k, s) ∷ scopes) = if holds id s then some (k, s) else by_holder id scopes

-- `unattached`
abbrev pub unattached : VaultError
unattached = daemon_rpc 32031

-- equality of lists of patterns
abbrev pub same_patterns : List Text → List Text → Bool
same_patterns [] [] = true
same_patterns (p ∷ ps) (q ∷ qs) = text_eq p q && same_patterns ps qs
same_patterns _ _ = false

-- `VaultRegistry::close`, at this vault
unfoldable pub close : Views → Views
close v = record (retire_all v) { closed = true }

-- `lookup_root`, where another directory has taken the place of this vault's
unfoldable pub replace_root : Views → Views
replace_root v = record (retire_all v) { replaced = true }

abbrev pub context_of : Option (Text × LiveScope) → Option ℕ
context_of none = none
context_of (some (k, s)) = s.context

-- `context_for_holder`
unfoldable pub context_for_holder : Text → Views → Option ℕ
context_for_holder id v = context_of (by_holder id v.scopes)
