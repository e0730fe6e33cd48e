-- ===== src/Tests/Blocks.antt =====
-- Runs of `patch_block` of src/vault/patch.rs.
use obsidian_mcp.Common.{◌≡◌, refl, some, List, [], ◌∷◌}
use obsidian_mcp.Text.{Text, codes}
use obsidian_mcp.Errors.{ok, err, patch_target_not_found}
use obsidian_mcp.Models.{PatchRequest, PatchOperation, append, prepend, replace, block}
use obsidian_mcp.Patch.Blocks.{Match, BlockRef, find_block_ref, patch_block, patched_block}
use obsidian_mcp.Patch.Splices.{SplicedBy}
use obsidian_mcp.Patch.Insertions.{Placed}
use obsidian_mcp.Patch.Joints.{Joint, block_from, block_to, patch_block-SplicedBy}

abbrev note : Text
note = codes "a\nb ^id\r\nc"

abbrev id_match : Match
id_match = record { start = 5; end = 7 }

abbrev ids : Text → List Match
ids _ = id_match ∷ []

abbrev request : PatchOperation → PatchRequest
request operation = record {
  operation = operation;
  target_type = block;
  target = codes "^id";
  content = codes "new";
}

found :
    find_block_ref ids note (codes "id")
    ≡ some (record { line_start = 2; line_end = 7; marker_start = 4; end_with_newline = 9 })
unfolding find_block_ref
found = refl

replaced : patch_block ids note (request replace) (codes "n.md") ≡ ok (codes "a\nnew ^id\r\nc")
unfolding patch_block find_block_ref patched_block
replaced = refl

prepended :
    patch_block ids note (request prepend) (codes "n.md") ≡ ok (codes "a\nnew\r\nb ^id\r\nc")
unfolding patch_block find_block_ref patched_block
prepended = refl

appended : patch_block ids note (request append) (codes "n.md") ≡ ok (codes "a\nb ^id\r\nnew\r\nc")
unfolding patch_block find_block_ref patched_block
appended = refl

unknown :
    (path : Text)
    → patch_block (λ _. []) note (request append) path
      ≡ err (patch_target_not_found path (codes "block") (codes "^id"))
unfolding patch_block find_block_ref
unknown path = refl

id_Placed : Placed note id_match
id_Placed = record {
  before = codes "a\nb ";
  text = codes "id";
  after = codes "\r\nc";
  whole = refl;
  starts = refl;
  ends = refl;
}

patch_block-SplicedBy_example :
    (b : BlockRef) × (find_block_ref ids note (codes "id") ≡ some b)
    × SplicedBy Joint note
        (codes "new")
        (codes "a\nnew ^id\r\nc")
        (block_from replace b)
        (block_to replace b)
patch_block-SplicedBy_example =
    patch_block-SplicedBy ids note (request replace) (codes "n.md") (id_Placed, tt) replaced
