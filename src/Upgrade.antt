-- ===== src/Upgrade.antt =====
-- The services of an upgrade (src/upgrade/mod.rs and src/upgrade/orchestrator.rs): which are known, and
-- which are started anew. The restarts themselves are a parameter.
pub mod Merging
use obsidian_mcp.Common.{
  ◌==◌, ltb, ℕ, Bool, true, false, not, ◌&&◌, ◌||◌, Option, none, some, List, [], ◌∷◌, any, all,
  map, is_some, if◌then◌else◌,
}
use obsidian_mcp.Text.{Text, text_eq}
use obsidian_mcp.Json.{text_lt}

pub data ServiceOwner : Type 0 where
  launchd systemd_user : ServiceOwner

pub record ServiceTarget : Type 0 where
  pub owner : ServiceOwner
  pub id : Text
  pub definition_path : Option Text
  pub executable : Text
  pub host : Text
  pub port : ℕ
  pub previous_pid : Option ℕ
  pub observed_version : Option Text

-- The message texts are left out.
pub record ActivationResult : Type 0 where
  pub target_id : Text
  pub success : Bool
  pub observed_version : Option Text

pub record SemanticReconcileResult : Type 0 where
  pub success : Bool
  pub was_running : Bool
  pub restarted : Bool
  pub observed_version : Option Text

abbrev pub same_owner : ServiceOwner → ServiceOwner → Bool
same_owner launchd launchd = true
same_owner systemd_user systemd_user = true
same_owner _ _ = false

-- the service of an owner and an identifier
abbrev pub is_service : ServiceOwner → Text → ServiceTarget → Bool
is_service owner id target = same_owner target.owner owner && text_eq target.id id

abbrev same_version : Option Text → Text → Bool
same_version none expected = false
same_version (some observed) expected = text_eq observed expected

-- `service_needs_activation`
unfoldable pub service_needs_activation : ServiceTarget → Text → Bool
service_needs_activation target expected_version =
    not (same_version target.observed_version expected_version)

-- one round of the loop of `merge_service_targets`
unfoldable pub put_target : ServiceTarget → List ServiceTarget → List ServiceTarget
put_target target [] = target ∷ []
put_target target (previous ∷ existing) =
    let rest = put_target target existing in
    if is_service target.owner target.id previous then target ∷ existing else previous ∷ rest

abbrev pub put_all : List ServiceTarget → List ServiceTarget → List ServiceTarget
put_all [] existing = existing
put_all (target ∷ current) existing = put_all current (put_target target existing)

-- the stable `sort_by` of the identifiers, as insertions
unfoldable pub insert_target : ServiceTarget → List ServiceTarget → List ServiceTarget
insert_target x [] = x ∷ []
insert_target x (y ∷ ys) =
    let rest = insert_target x ys in if text_lt y.id x.id then y ∷ rest else x ∷ y ∷ ys

abbrev pub sort_targets : List ServiceTarget → List ServiceTarget
sort_targets [] = []
sort_targets (x ∷ xs) = insert_target x (sort_targets xs)

-- `merge_service_targets`
unfoldable pub merge_service_targets : List ServiceTarget → List ServiceTarget → List ServiceTarget
merge_service_targets existing current = sort_targets (put_all current existing)

-- insertion into the `BTreeSet`, whose members ascend
abbrev pub insert_pid : ℕ → List ℕ → List ℕ
insert_pid pid [] = pid ∷ []
insert_pid pid (other ∷ pids) =
    let rest = insert_pid pid pids in
    if pid == other
    then other ∷ pids
    else if ltb pid other
    then pid ∷ other ∷ pids
    else other ∷ rest

-- `managed_pids` in `ensure_no_unmanaged_http`
unfoldable pub managed_pids : List ServiceTarget → List ℕ
managed_pids [] = []
managed_pids (target ∷ services) = elim target.previous_pid [
  | none ↦ managed_pids services
  | some pid ↦ insert_pid pid (managed_pids services)
]

-- the activation of one service in `run`
abbrev pub activate_service :
    (ServiceTarget → Text → ActivationResult) → Text → ServiceTarget → ActivationResult
activate_service restart version target =
    if not (service_needs_activation target version)
    then record {
      target_id = target.id;
      success = true;
      observed_version = target.observed_version;
    }
    else restart target version

abbrev pub activate_services :
    (ServiceTarget → Text → ActivationResult) → Text → List ServiceTarget → List ActivationResult
activate_services restart version = map (activate_service restart version)

abbrev semantic_attempted : Option SemanticReconcileResult → Bool
semantic_attempted none = false
semantic_attempted (some result) = result.restarted || not result.success

-- `activation_attempted` of the report
unfoldable pub activation_attempted :
    Option SemanticReconcileResult → Text → List ServiceTarget → Bool
activation_attempted semantic version services =
    any (λ target. service_needs_activation target version) services || semantic_attempted semantic

abbrev semantic_succeeded : Option SemanticReconcileResult → Bool
semantic_succeeded none = true
semantic_succeeded (some result) = result.success

-- `UpgradeReport::activation_succeeded`
unfoldable pub activation_succeeded : Option SemanticReconcileResult → List ActivationResult → Bool
activation_succeeded semantic services =
    semantic_succeeded semantic && all (λ result. result.success) services
