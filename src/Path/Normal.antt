-- ===== src/Path/Normal.antt =====
-- An accepted path is a normal form: parsing it again changes nothing.
use obsidian_mcp.Common.{◌≡◌, refl, ap, ◌∙◌, false, List, [], ◌∷◌, reverse, arith, All, ◌==◌}
use mathlib.Core.List.{reverse-reverse, append-nil}
use obsidian_mcp.Text.{Text, split, join, replace_char, is_control}
use obsidian_mcp.Text.Split.{Lacks, split-join}
use obsidian_mcp.Errors.{ok}
use obsidian_mcp.Path.{
  slash, backslash, is_slash, is_separator, fold_names, parse, starts_with_separator,
}
use obsidian_mcp.Path.Names.{IsName, any_of_Lacks, replace_none, Lacks-weaken, join-Lacks}
use obsidian_mcp.Path.Parsing.{parse-Parsed, fold_names_names}

names-Lacks_control : (ns : List Text) → All IsName ns → All (Lacks is_control) ns
names-Lacks_control [] h = tt
names-Lacks_control (n ∷ ns) (hn, hs) = (hn.no_control, names-Lacks_control ns hs)

names-Lacks_slash : (ns : List Text) → All IsName ns → All (Lacks is_slash) ns
names-Lacks_slash [] h = tt
names-Lacks_slash (n ∷ ns) (hn, hs) = (
  Lacks-weaken is_separator is_slash n (λ c e. ground arith) hn.no_separator,
  names-Lacks_slash ns hs,
)

names-Lacks-backslash : (ns : List Text) → All IsName ns → All (Lacks (λ c. c == backslash)) ns
names-Lacks-backslash [] h = tt
names-Lacks-backslash (n ∷ ns) (hn, hs) = (
  Lacks-weaken is_separator (λ c. c == backslash) n (λ c e. ground arith) hn.no_separator,
  names-Lacks-backslash ns hs,
)

starts_with_name :
    (ns : List Text) → All IsName ns → starts_with_separator (join (slash ∷ []) ns) ≡ false
starts_with_name [] h = refl
starts_with_name ([] ∷ ns) (hn, _) = absurd (hn.filled refl)
starts_with_name ((c ∷ n) ∷ []) (hn, _) = hn.no_separator.0
starts_with_name ((c ∷ n) ∷ v ∷ ns) (hn, _) = hn.no_separator.0

-- The names that a path is spelled with are read back from it.
fold_spelled :
    (value : Text) (ns : List Text)
    → All IsName ns
    → fold_names value (split is_slash (join (slash ∷ []) ns)) [] ≡ ok (reverse ns)
fold_spelled value [] h = unfold fold_names in refl
fold_spelled value (n ∷ ns) h =
    rw (split-join is_slash slash n ns refl (names-Lacks_slash (n ∷ ns) h))
      (fold_names_names value (n ∷ ns) [] h ∙ ap ok (append-nil (reverse (n ∷ ns))))

-- A list of names, joined by `/`, is accepted as it stands.
pub parse-join :
    (ns : List Text) → All IsName ns → parse (join (slash ∷ []) ns) ≡ ok (join (slash ∷ []) ns)
unfolding parse
parse-join ns h =
    let path = join (slash ∷ []) ns in
    let same : replace_char backslash slash path ≡ path =
      replace_none path (join-Lacks (λ c. c == backslash) ns refl (names-Lacks-backslash ns h)) in
    rw (
      starts_with_name ns h,
      any_of_Lacks is_control path (join-Lacks is_control ns refl (names-Lacks_control ns h)),
      same,
      fold_spelled path ns h,
      reverse-reverse,
    )

-- Parsing an accepted path again gives the same path.
pub parse_idem : (value : Text) {path : Text} → parse value ≡ ok path → parse path ≡ ok path
parse_idem value {path} h =
    let p = parse-Parsed value h in rw p.spelled (parse-join p.names p.all_names)
