-- ===== src/Text.antt =====
-- Rust's `str` as the list of its Unicode scalar values, and what the program uses of its standard
-- library. Byte offsets are counted in UTF-8, as in Rust.
pub mod Compare
pub mod Split
pub mod Offsets
pub mod Slices
use Prim.Native.Char.{code}
use obsidian_mcp.Common.{
  ℕ, ◌+◌, ◌-◌, String, Bool, true, false, ◌&&◌, ◌||◌, Option, none, some, List, [], ◌∷◌, ◌++◌, map,
  ltb, leb, ◌==◌, if◌then◌else◌,
}

abbrev pub Text : Type 0
Text = List ℕ

-- The scalar values of a literal.
abbrev pub codes : String → Text
codes String.[] = []
codes (String.◌∷◌ c s) = code c ∷ codes s

abbrev pub text_eq : Text → Text → Bool
text_eq [] [] = true
text_eq [] (d ∷ t) = false
text_eq (c ∷ s) [] = false
text_eq (c ∷ s) (d ∷ t) = c == d && text_eq s t

abbrev pub is_empty {ℓ} : {A : Type ℓ} → List A → Bool
is_empty [] = true
is_empty (c ∷ s) = false

-- `s.strip_prefix(p)`
abbrev pub strip_prefix : Text → Text → Option Text
strip_prefix [] s = some s
strip_prefix (c ∷ p) [] = none
strip_prefix (c ∷ p) (d ∷ s) = if c == d then strip_prefix p s else none

-- `s.starts_with(p)`
abbrev pub starts_with : Text → Text → Bool
starts_with [] s = true
starts_with (c ∷ p) [] = false
starts_with (c ∷ p) (d ∷ s) = c == d && starts_with p s

-- `s.strip_suffix(p)`
abbrev pub strip_suffix : Text → Text → Option Text
strip_suffix p [] = if text_eq p [] then some [] else none
strip_suffix p (c ∷ s) =
    if text_eq p (c ∷ s)
    then some []
    else elim (strip_suffix p s) [ none ↦ none | some t ↦ some (c ∷ t) ]

-- `s.ends_with(p)`
abbrev pub ends_with : Text → Text → Bool
ends_with p [] = text_eq p []
ends_with p (c ∷ s) = text_eq p (c ∷ s) || ends_with p s

-- `s.contains(p)` at a text
abbrev pub contains : Text → Text → Bool
contains p [] = text_eq p []
contains p (c ∷ s) = starts_with p (c ∷ s) || contains p s

-- `s.replace(a, b)` at two characters
abbrev pub replace_char : ℕ → ℕ → Text → Text
replace_char a b = map (λ c. if c == a then b else c)

abbrev pub cons_first : ℕ → List Text → List Text
cons_first c [] = (c ∷ []) ∷ []
cons_first c (w ∷ ws) = (c ∷ w) ∷ ws

-- `s.split(pattern)` at a pattern of characters: always at least one piece
abbrev pub split : (ℕ → Bool) → Text → List Text
split p [] = [] ∷ []
split p (c ∷ s) = if p c then [] ∷ split p s else cons_first c (split p s)

-- `s.split_once(c)`
abbrev pub split_once : ℕ → Text → Option (Text × Text)
split_once p [] = none
split_once p (c ∷ s) =
    if c == p
    then some ([], s)
    else elim (split_once p s) [ none ↦ none | some (a, b) ↦ some (c ∷ a, b) ]

-- `s.rsplit_once(c)`
abbrev pub rsplit_once : ℕ → Text → Option (Text × Text)
rsplit_once p [] = none
rsplit_once p (c ∷ s) = elim (rsplit_once p s) [
  | some (a, b) ↦ some (c ∷ a, b)
  | none ↦ if c == p then some ([], s) else none
]

-- `parts.join(sep)`
abbrev pub join : Text → List Text → Text
join sep [] = []
join sep (w ∷ []) = w
join sep (w ∷ v ∷ ws) = w ++ (sep ++ join sep (v ∷ ws))

-- `char::is_whitespace`: the characters with the Unicode property White_Space
abbrev pub is_whitespace : ℕ → Bool
is_whitespace c =
    (leb 9 c && leb c 13)
    || c == 32
    || c == 0x85
    || c == 0xa0
    || c == 0x1680
    || (leb 0x2000 c && leb c 0x200a)
    || c == 0x2028
    || c == 0x2029
    || c == 0x202f
    || c == 0x205f
    || c == 0x3000

-- `char::is_control`: the Unicode category Cc
abbrev pub is_control : ℕ → Bool
is_control c = ltb c 32 || (leb 127 c && leb c 159)

abbrev pub trim_start_matches : (ℕ → Bool) → Text → Text
trim_start_matches p [] = []
trim_start_matches p (c ∷ s) = if p c then trim_start_matches p s else c ∷ s

-- `s.trim_end_matches(pattern)`
abbrev pub trim_end_matches : (ℕ → Bool) → Text → Text
trim_end_matches p [] = []
trim_end_matches p (c ∷ s) =
    let rest = trim_end_matches p s in if p c && is_empty rest then [] else c ∷ rest

abbrev pub trim_start : Text → Text
trim_start = trim_start_matches is_whitespace

abbrev pub trim : Text → Text
trim s = trim_end_matches is_whitespace (trim_start s)

-- `char::is_ascii_digit`, `is_ascii_alphanumeric`
abbrev pub is_ascii_digit : ℕ → Bool
is_ascii_digit c = leb b'0' c && leb c b'9'

abbrev pub is_ascii_alphanumeric : ℕ → Bool
is_ascii_alphanumeric c =
    is_ascii_digit c || (leb b'A' c && leb c b'Z') || (leb b'a' c && leb c b'z')

abbrev pub to_ascii_lower : ℕ → ℕ
to_ascii_lower c = if leb b'A' c && leb c b'Z' then c + 32 else c

abbrev pub to_ascii_lowercase : Text → Text
to_ascii_lowercase = map to_ascii_lower

-- `a.eq_ignore_ascii_case(b)`
abbrev pub eq_ignore_ascii_case : Text → Text → Bool
eq_ignore_ascii_case a b = text_eq (to_ascii_lowercase a) (to_ascii_lowercase b)

-- `c.len_utf8()`
abbrev pub len_utf8 : ℕ → ℕ
len_utf8 c = if ltb c 0x80 then 1 else if ltb c 0x800 then 2 else if ltb c 0x10000 then 3 else 4

-- `s.len()`: in bytes
abbrev pub len : Text → ℕ
len [] = 0
len (c ∷ s) = len_utf8 c + len s

-- `s.is_char_boundary(n)`
abbrev pub is_char_boundary : Text → ℕ → Bool
is_char_boundary [] n = n == 0
is_char_boundary (c ∷ s) n = n == 0 || (leb (len_utf8 c) n && is_char_boundary s (n - len_utf8 c))

-- `s.floor_char_boundary(n)`
abbrev pub floor_char_boundary : Text → ℕ → ℕ
floor_char_boundary [] n = 0
floor_char_boundary (c ∷ s) n =
    let rest = floor_char_boundary s (n - len_utf8 c) in
    if leb (len_utf8 c) n then len_utf8 c + rest else 0

-- `&s[..n]` and `&s[n..]`; `none` is the panic of a slice that is out of range or cuts a character
abbrev pub slice_to : Text → ℕ → Option Text
slice_to [] n = if n == 0 then some [] else none
slice_to (c ∷ s) n =
    let rest = slice_to s (n - len_utf8 c) in
    if n == 0
    then some []
    else if leb (len_utf8 c) n
    then elim rest [ none ↦ none | some t ↦ some (c ∷ t) ]
    else none

abbrev pub slice_from : Text → ℕ → Option Text
slice_from [] n = if n == 0 then some [] else none
slice_from (c ∷ s) n =
    let rest = slice_from s (n - len_utf8 c) in
    if n == 0 then some (c ∷ s) else if leb (len_utf8 c) n then rest else none

-- `&s[a..b]`
abbrev pub slice : Text → ℕ → ℕ → Option Text
slice s a b =
    if leb a b then elim (slice_to s b) [ none ↦ none | some t ↦ slice_from t a ] else none

-- `s.find(c)`: the byte offset of the first `c`
abbrev pub find_char : ℕ → Text → Option ℕ
find_char p [] = none
find_char p (c ∷ s) =
    if c == p then some 0 else elim (find_char p s) [ none ↦ none | some n ↦ some (len_utf8 c + n) ]

-- `s.rfind(c)`: the byte offset of the last `c`
abbrev pub rfind_char : ℕ → Text → Option ℕ
rfind_char p [] = none
rfind_char p (c ∷ s) = elim (rfind_char p s) [
  | some n ↦ some (len_utf8 c + n)
  | none ↦ if c == p then some 0 else none
]

-- one line of `lines()` without the `\r` that ends it
abbrev pub strip_cr : Text → Text
strip_cr s = elim (strip_suffix (b'\r' ∷ []) s) [ none ↦ s | some t ↦ t ]

-- `s.lines()`: the last line has no terminator and keeps its `\r`
abbrev pub strip_terminated : List Text → List Text
strip_terminated [] = []
strip_terminated (w ∷ []) = if is_empty w then [] else w ∷ []
strip_terminated (w ∷ v ∷ ws) = strip_cr w ∷ strip_terminated (v ∷ ws)

abbrev pub lines : Text → List Text
lines s = strip_terminated (split (λ c. c == b'\n') s)
