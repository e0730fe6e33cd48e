-- ===== src/Source.antt =====
-- Revision-bound pages of a note (src/vault/source.rs). The hash function comes from a third-party
-- package and is a parameter: it takes a text to the bytes of its digest.
pub mod Revision
pub mod Pages
pub mod Reading
pub mod Headings
pub mod Nesting
use obsidian_mcp.Common.{
  ℕ, ◌+◌, ◌-◌, ◌*◌, ◌/◌, ◌%◌, ◌≤◌, ◌<◌, min, Bool, true, false, not, ◌&&◌, ◌||◌, Option, none, some,
  List, [], ◌∷◌, ◌++◌, all, leb, ltb, ◌==◌, is_some, if◌then◌else◌,
}
use obsidian_mcp.Text.{
  Text, codes, text_eq, len, is_char_boundary, floor_char_boundary, slice, is_ascii_digit,
}
use obsidian_mcp.Errors.{
  Result, ok, err, invalid_source_range, source_changed, ◌>>=◌, ◌>>◌, refuse_if,
}

abbrev pub max_page_bytes : ℕ
max_page_bytes = 256 * 1024

abbrev pub default_page_bytes : ℕ
default_page_bytes = 64 * 1024

pub record SourceRange : Type 0 where
  pub start_byte : ℕ
  pub end_byte : ℕ

pub record SourceSnapshot : Type 0 where
  pub content : Text
  pub source_revision : Text

pub record SourcePage : Type 0 where
  pub content : Text
  pub source_revision : Text
  pub source_bytes : ℕ
  pub requested_range : SourceRange
  pub returned_range : SourceRange
  pub next_range : Option SourceRange

-- `HEX[n]`
abbrev pub hex_digit : ℕ → ℕ
hex_digit n = if ltb n 10 then b'0' + n else b'a' + (n - 10)

-- `hex_pair`
unfoldable pub hex_pair : ℕ → Text
hex_pair byte = hex_digit (byte / 16) ∷ hex_digit (byte % 16) ∷ []

unfoldable pub hex : List ℕ → Text
unfolding hex_pair
hex [] = []
hex (byte ∷ bytes) = hex_pair byte ++ hex bytes

-- `source_revision`
unfoldable pub source_revision : (Text → List ℕ) → Text → Text
unfolding hex
source_revision digest content = hex (digest content)

abbrev is_lower_hex : ℕ → Bool
is_lower_hex c = is_ascii_digit c || (leb b'a' c && leb c b'f')

-- `validate_revision`
unfoldable pub validate_revision : Text → Result (Unit {0})
validate_revision revision =
    refuse_if (not (len revision == 64 && all is_lower_hex revision)) invalid_source_range

-- `SourceSnapshot::new`
unfoldable pub snapshot : (Text → List ℕ) → Text → SourceSnapshot
snapshot digest content = record {
  content = content;
  source_revision = source_revision digest content;
}

-- `SourceSnapshot::check_revision`
unfoldable pub check_revision : SourceSnapshot → Text → Option Text → Result (Unit {0})
unfolding validate_revision
check_revision s path none = ok tt
check_revision s path (some expected) =
    validate_revision expected
    >> refuse_if (not (text_eq expected s.source_revision))
        (source_changed path expected s.source_revision)

-- `SourceSnapshot::validate_range`
unfoldable pub validate_range : SourceSnapshot → SourceRange → Result (Unit {0})
validate_range s range =
    refuse_if (ltb range.end_byte range.start_byte || ltb (len s.content) range.end_byte)
      invalid_source_range
    >> refuse_if
        (not (is_char_boundary s.content range.start_byte)
          || not (is_char_boundary s.content range.end_byte))
        invalid_source_range

-- `validate_limit`
unfoldable pub validate_limit : ℕ → ℕ → Result ℕ
validate_limit value cap =
    if value == 0 || ltb cap value then err invalid_source_range else ok value

-- the budget of `page`
unfoldable pub page_budget : Option SourceRange → Option ℕ → Result (Option ℕ)
unfolding validate_limit
page_budget range (some value) = validate_limit value max_page_bytes >>= λ v. ok (some v)
page_budget (some range) none = ok (some default_page_bytes)
page_budget none none = ok none

-- The end of the page. The sum does not saturate: a text has less than 2^63 bytes and a budget at
-- most 2^18.
unfoldable pub page_end : SourceSnapshot → SourceRange → Option ℕ → ℕ
page_end s requested none = requested.end_byte
page_end s requested (some budget) =
    floor_char_boundary s.content (min (requested.start_byte + budget) requested.end_byte)

-- A slice that would panic is empty here; that the slices exist is proved.
abbrev pub sliced : Text → ℕ → ℕ → Text
sliced t a b = elim (slice t a b) [ none ↦ [] | some u ↦ u ]

-- the last part of `page`
unfoldable pub cut_page : SourceSnapshot → SourceRange → ℕ → Result SourcePage
cut_page s requested end_byte =
    refuse_if (end_byte == requested.start_byte && ltb end_byte requested.end_byte)
      invalid_source_range
    >> ok (record {
      content = sliced s.content requested.start_byte end_byte;
      source_revision = s.source_revision;
      source_bytes = len s.content;
      requested_range = requested;
      returned_range = record { start_byte = requested.start_byte; end_byte = end_byte };
      next_range =
          if ltb end_byte requested.end_byte
          then some (record { start_byte = end_byte; end_byte = requested.end_byte })
          else none;
    })

abbrev pub requested_of : SourceSnapshot → Option SourceRange → SourceRange
requested_of s none = record { start_byte = 0; end_byte = len s.content }
requested_of s (some range) = range

-- `SourceSnapshot::page`
unfoldable pub page :
    SourceSnapshot → Text → Option Text → Option SourceRange → Option ℕ → Result SourcePage
unfolding check_revision validate_range page_budget page_end cut_page
page s path expected range max_bytes =
    refuse_if (is_some range && not (is_some expected)) invalid_source_range
    >> (check_revision s path expected
        >> (validate_range s (requested_of s range)
            >> (page_budget range max_bytes >>= λ budget.
                cut_page s (requested_of s range) (page_end s (requested_of s range) budget))))
