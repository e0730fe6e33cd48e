-- ===== src/Exclude/Rules.antt =====
-- Compiling an exclusion policy (src/vault/exclude.rs): the rules of an ignore file, and the accepted
-- patterns. The glob package is a parameter.
use obsidian_mcp.Common.{
  Bool, true, false, not, ◌&&◌, ◌||◌, ◌==◌, Option, none, some, List, [], ◌∷◌, ◌++◌, any,
  if◌then◌else◌, ltb, ◌≡◌, refl, sym, ◌∙◌, ap, subst, arith, Bool-cases, Option-cases, inl, inr,
}
use obsidian_mcp.Text.{Text, codes, text_eq, is_empty, trim, starts_with, strip_suffix, lines}
use obsidian_mcp.Text.Compare.{text_eq_iff, text_eq_sound}
use obsidian_mcp.Errors.{
  Result, ok, err, invalid_path, other, ok_or, ◌>>=◌, >>=-inversion, ok-injective,
}
use obsidian_mcp.Exclude.{ExcludeSet}

-- `ignore_rule`
unfoldable pub ignore_rule : Text → Option Text
ignore_rule line =
    let rule = trim line in
    if not (is_empty rule) && not (starts_with (codes "#") rule) then some rule else none

-- `parse_ignore_lines`, over the lines of the content
unfoldable pub rules_of : List Text → List Text
unfolding ignore_rule
rules_of [] = []
rules_of (line ∷ rest) = elim (ignore_rule line) [
  | none ↦ rules_of rest
  | some rule ↦ rule ∷ rules_of rest
]

unfoldable pub parse_ignore_lines : Text → List Text
unfolding rules_of
parse_ignore_lines content = rules_of (lines content)

-- the normalised pattern of a raw rule in `ExcludeSet::from_sources`; nothing for an empty one
unfoldable pub normalize_rule : Text → Option Text
normalize_rule raw =
    let trimmed = trim raw in
    if is_empty trimmed
    then none
    else some (elim (strip_suffix (codes "/") trimmed) [
      | none ↦ trimmed
      | some prefix ↦ prefix ++ codes "/**"
    ])

-- The order of `String`, which for UTF-8 is that of the scalar values.
abbrev pub text_before : Text → Text → Bool
text_before [] [] = false
text_before [] (d ∷ t) = true
text_before (c ∷ s) [] = false
text_before (c ∷ s) (d ∷ t) = if c == d then text_before s t else ltb c d

-- `BTreeSet::insert`
unfoldable pub set_insert : Text → List Text → List Text
set_insert p [] = p ∷ []
set_insert p (q ∷ qs) =
    if text_eq p q then q ∷ qs else if text_before p q then p ∷ q ∷ qs else q ∷ set_insert p qs

-- What the glob package answers: whether a pattern is well formed, and the test that the accepted
-- patterns compile to.
pub record Globset : Type 0 where
  pub is_glob : Text → Bool
  pub build : List Text → Option (Text → Bool)

-- the loop of `ExcludeSet::from_sources`: the globs of the builder in the order of their addition,
-- and the accepted patterns
unfoldable pub accept : Globset → List Text → List Text → List Text → Result (List Text × List Text)
unfolding normalize_rule set_insert
accept globset [] globs accepted = ok (globs, accepted)
accept globset (raw ∷ rest) globs accepted = elim (normalize_rule raw) [
  | none ↦ accept globset rest globs accepted
  | some pattern ↦
      let seen = accept globset rest globs accepted in
      let new = accept globset rest (globs ++ pattern ∷ []) (set_insert pattern accepted) in
      if any (text_eq pattern) accepted
      then seen
      else if globset.is_glob pattern
      then new
      else err invalid_path
]

-- `ExcludeSet::from_sources`; the environment says whether private memory is on
unfoldable pub from_sources : Globset → Bool → List Text → Result ExcludeSet
unfolding accept
from_sources globset private_memory entries = accept globset entries [] [] >>= λ accepted.
    ok_or other (globset.build (accepted.0)) >>= λ test.
    ok (record { set = test; patterns = accepted.1; private_memory = private_memory })

-- `ExcludeSet::merged`
unfoldable pub merged : Globset → Bool → ExcludeSet → List Text → Result ExcludeSet
unfolding from_sources
merged globset private_memory e extra = from_sources globset private_memory (e.patterns ++ extra)

abbrev pub names_pattern : Text → Option Text → Bool
names_pattern p none = false
names_pattern p (some q) = text_eq p q

-- Whether a raw rule stands for a pattern.
abbrev pub stands_for : Text → Text → Bool
stands_for p raw = names_pattern p (normalize_rule raw)

any-set_insert :
    (p q : Text) (qs : List Text)
    → any (text_eq p) (set_insert q qs) ≡ (text_eq p q || any (text_eq p) qs)
unfolding set_insert
any-set_insert p q [] = refl
any-set_insert p q (r ∷ qs) = ground (arith, any-set_insert p q qs, text_eq_iff q r)

module _ (globset : Globset) (p : Text) where
  after_all : (globs accepted : List Text) → accept globset [] globs accepted ≡ ok (globs, accepted)
  unfolding accept
  after_all globs accepted = refl

  after_nothing :
      (raw : Text) (rest globs accepted : List Text)
      → normalize_rule raw ≡ none
      → accept globset (raw ∷ rest) globs accepted ≡ accept globset rest globs accepted
  unfolding accept
  after_nothing raw rest globs accepted e = rw (e, accept) refl

  after_pattern :
      (raw pattern : Text) (rest globs accepted : List Text)
      → normalize_rule raw ≡ some pattern
      → accept globset (raw ∷ rest) globs accepted ≡ (
          if any (text_eq pattern) accepted
          then accept globset rest globs accepted
          else if globset.is_glob pattern
          then accept globset rest (globs ++ pattern ∷ []) (set_insert pattern accepted)
          else err invalid_path)
  unfolding accept
  after_pattern raw pattern rest globs accepted e = rw (e, accept) refl

  seen_before :
      (pattern : Text) (accepted : List Text)
      → any (text_eq pattern) accepted ≡ true
      → (any (text_eq p) accepted) ≡ (any (text_eq p) accepted || text_eq p pattern)
  seen_before pattern accepted seen = elim (Bool-cases (text_eq p pattern)) [
    | inl e ↦
        let same : any (text_eq p) accepted ≡ true =
          subst (λ q. any (text_eq q) accepted ≡ true) (sym (text_eq_sound p pattern e)) seen in
        ground (arith, same)
    | inr e ↦ rw e (ground arith)
  ]

  accepted_members :
      (entries globs accepted : List Text) {result : List Text × List Text}
      → accept globset entries globs accepted ≡ ok result
      → any (text_eq p) (result.1) ≡ (any (text_eq p) accepted || any (stands_for p) entries)
  accepted_members [] globs accepted {result} h =
      ap (λ (r : List Text × List Text). any (text_eq p) (r.1))
        (sym (ok-injective (sym (after_all globs accepted) ∙ h)))
      ∙ ground arith
  accepted_members (raw ∷ rest) globs accepted {result} h =
      elim (Option-cases (normalize_rule raw)) [
        | inl e ↦
            accepted_members rest globs accepted (sym (after_nothing raw rest globs accepted e) ∙ h)
            ∙ rw e refl
        | inr (pattern, e) ↦
            let next = sym (after_pattern raw pattern rest globs accepted e) ∙ h in
            elim (Bool-cases (any (text_eq pattern) accepted)) [
              | inl seen ↦
                  accepted_members rest globs accepted (rw seen at next)
                  ∙ rw e (ground (arith, seen_before pattern accepted seen))
              | inr new ↦ elim (Bool-cases (globset.is_glob pattern)) [
                | inl good ↦
                    accepted_members rest (globs ++ pattern ∷ []) (set_insert pattern accepted)
                      (rw (new, good) at next)
                    ∙ rw e (ground (arith, any-set_insert p pattern accepted))
                | inr bad ↦ absurd (cc (rw (new, bad) at next))
              ]
            ]
      ]

  -- The patterns of an accepted policy are those that its rules stand for.
  pub from_sources-patterns :
      (private_memory : Bool) (entries : List Text) {e : ExcludeSet}
      → from_sources globset private_memory entries ≡ ok e
      → any (text_eq p) e.patterns ≡ any (stands_for p) entries
  unfolding from_sources
  from_sources-patterns private_memory entries {e} h =
      let step : List Text × List Text → Result ExcludeSet = λ accepted.
        ok_or other (globset.build (accepted.0)) >>= λ test.
        ok (record { set = test; patterns = accepted.1; private_memory = private_memory }) in
      let one = >>=-inversion step (accept globset entries [] []) h in
      let finish : (Text → Bool) → Result ExcludeSet = λ test.
        ok (record { set = test; patterns = one.middle.1; private_memory = private_memory }) in
      let two = >>=-inversion finish (ok_or other (globset.build (one.middle.0))) one.ended in
      ap (λ (x : ExcludeSet). any (text_eq p) x.patterns) (sym (ok-injective two.ended))
      ∙ accepted_members entries [] [] one.begun
