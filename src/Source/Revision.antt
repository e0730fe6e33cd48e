-- ===== src/Source/Revision.antt =====
-- Revisions are well formed.
use obsidian_mcp.Common.{
  ℕ, ◌*◌, ◌/◌, ◌%◌, ◌<◌, ◌≡◌, refl, true, List, [], ◌∷◌, all, All, length, arith, ◌==◌,
}
use obsidian_mcp.Text.{Text, len, len_utf8}
use obsidian_mcp.Errors.{ok}
use obsidian_mcp.Source.{hex_digit, hex_pair, hex, source_revision, is_lower_hex, validate_revision}

digit_lower : (n : ℕ) → n < 16 → (is_lower_hex (hex_digit n) ≡ true) × (len_utf8 (hex_digit n) ≡ 1)
digit_lower n h = (ground arith, ground arith)

hex_lower : (bytes : List ℕ) → All (λ b. b < 256) bytes → all is_lower_hex (hex bytes) ≡ true
unfolding hex hex_pair
hex_lower [] h = refl
hex_lower (b ∷ bytes) (hb, hs) = rw (
  (digit_lower (b / 16) (omega arith)).0,
  (digit_lower (b % 16) (omega arith)).0,
  hex_lower bytes hs,
)

len-hex : (bytes : List ℕ) → All (λ b. b < 256) bytes → len (hex bytes) ≡ 2 * length bytes
unfolding hex hex_pair
len-hex [] h = omega arith
len-hex (b ∷ bytes) (hb, hs) = omega (
  arith,
  (digit_lower (b / 16) (omega arith)).1,
  (digit_lower (b % 16) (omega arith)).1,
  len-hex bytes hs,
)

-- If the hash function gives 32 bytes, the revision of every text passes the check of revisions.
pub validate-source_revision :
    (digest : Text → List ℕ) (content : Text)
    → length (digest content) ≡ 32
    → All (λ b. b < 256) (digest content)
    → validate_revision (source_revision digest content) ≡ ok tt
unfolding validate_revision source_revision
validate-source_revision digest content size bytes =
    let long : (len (hex (digest content)) == 64) ≡ true =
      ground (arith, len-hex (digest content) bytes) in
    rw (long, hex_lower (digest content) bytes)
