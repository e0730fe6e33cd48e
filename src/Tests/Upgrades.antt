-- ===== src/Tests/Upgrades.antt =====
-- Runs of src/upgrade/orchestrator.rs.
use obsidian_mcp.Common.{◌≡◌, refl, true, false, none, some, List, [], ◌∷◌, map, find, Option}
use obsidian_mcp.Text.{Text, codes}
use obsidian_mcp.Upgrade.{
  ServiceOwner, launchd, systemd_user, ServiceTarget, ActivationResult, merge_service_targets,
  put_target, insert_target, service_needs_activation, managed_pids, activate_services, is_service,
  activation_attempted, activation_succeeded,
}
use obsidian_mcp.Upgrade.Merging.{Ascending, find_last, or_earlier, merge_service_targets-find}

abbrev service : ServiceOwner → Text → Option Text → ServiceTarget
service owner id version = record {
  owner = owner;
  id = id;
  definition_path = none;
  executable = codes "obsidian-mcp";
  host = codes "127.0.0.1";
  port = 37842;
  previous_pid = some 7;
  observed_version = version;
}

abbrev before : List ServiceTarget
before = service launchd (codes "b") (some (codes "1")) ∷ service launchd (codes "a") none ∷ []

abbrev now : List ServiceTarget
now =
    service launchd (codes "b") (some (codes "2"))
    ∷ service systemd_user (codes "aa") (some (codes "1"))
    ∷ []

abbrev restart : ServiceTarget → Text → ActivationResult
restart target version = record { target_id = target.id; success = false; observed_version = none }

merged :
    merge_service_targets before now
    ≡ service launchd (codes "a") none
      ∷ service systemd_user (codes "aa") (some (codes "1"))
      ∷ service launchd (codes "b") (some (codes "2"))
      ∷ []
unfolding merge_service_targets put_target insert_target
merged = refl

activated :
    map (λ r. r.success) (activate_services restart (codes "2") (merge_service_targets before now))
    ≡ false ∷ false ∷ true ∷ []
unfolding merge_service_targets put_target insert_target service_needs_activation
activated = refl

pids : managed_pids before ≡ 7 ∷ []
unfolding managed_pids
pids = refl

reported :
    (activation_attempted none (codes "2") now ≡ true)
    × (activation_succeeded none (activate_services restart (codes "2") now) ≡ false)
unfolding activation_attempted activation_succeeded service_needs_activation
reported = (refl, refl)

merge_service_targets-find_example :
    (find (is_service launchd (codes "b")) (merge_service_targets before now)
      ≡ or_earlier
          (find_last launchd (codes "b") now)
          (find (is_service launchd (codes "b")) before))
    × Ascending (merge_service_targets before now)
merge_service_targets-find_example = merge_service_targets-find before now launchd (codes "b")
