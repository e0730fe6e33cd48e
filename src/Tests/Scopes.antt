-- ===== src/Tests/Scopes.antt =====
-- Runs of src/access.rs.
use obsidian_mcp.Common.{◌≡◌, refl, true, [], ◌∷◌}
use obsidian_mcp.Text.{codes}
use obsidian_mcp.Errors.{ok}
use obsidian_mcp.Access.{ReadScope, finite, validate, allows_path}
use obsidian_mcp.Access.Confined.{validate-allows_path-IsConfined}
use obsidian_mcp.Access.Pieces.{IsConfined}

abbrev scope : ReadScope
scope = record {
  version = 1;
  tenant_id = codes "tenant";
  star_label = codes "star";
  workspace_id = codes "T1";
  audience_kind = codes "channel";
  audience_id = codes "C1";
  purpose = codes "conversation";
  scope_id = codes "slack-t1";
  allowed_prefixes = codes "Organize/Work/slack-t1/" ∷ codes "Distill/slack-t1/brief.md" ∷ [];
  expires_at = finite 20;
}

scope_valid : validate scope 10 ≡ ok tt
unfolding validate
scope_valid = refl

scope_allows : allows_path scope (codes "Organize/Work/slack-t1/plan.md") ≡ true
unfolding allows_path
scope_allows = refl

validate-allows_path-IsConfined_example : IsConfined scope (codes "Organize/Work/slack-t1/plan.md")
validate-allows_path-IsConfined_example =
    validate-allows_path-IsConfined scope 10 (codes "Organize/Work/slack-t1/plan.md") scope_valid
      scope_allows
