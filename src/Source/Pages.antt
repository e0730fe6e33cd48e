-- ===== src/Source/Pages.antt =====
-- What a page holds, and what reading page after page gives.
use obsidian_mcp.Common.{
  ℕ, ◌+◌, ◌≤◌, ◌<◌, min, ◌≡◌, refl, sym, ◌∙◌, ap, subst, ◌⊎◌, Bool, true, false, not, ◌&&◌, Option,
  none, some, [], arith, ltb, ◌==◌, is_some, Bool-cases, inl, inr, if◌then◌else◌,
}
use obsidian_mcp.Text.{Text, len, is_char_boundary, floor_char_boundary, slice}
use obsidian_mcp.Text.Offsets.{floor-le, floor-boundary, floor_greatest}
use obsidian_mcp.Text.Slices.{between, slice-Between, len_middle, next_boundary}
use obsidian_mcp.Errors.{
  ok, invalid_source_range, ◌>>=◌, ◌>>◌, refuse_if, >>=-inversion, >>-inversion, refuse_if-ok,
  ok-injective,
}
use obsidian_mcp.Source.{
  SourceRange, SourceSnapshot, SourcePage, page, page_end, page_budget, cut_page, check_revision,
  validate_range, validate_limit, requested_of, sliced,
}

-- The range lies in the note and starts and ends at character boundaries.
pub record IsRange (s : SourceSnapshot) (r : SourceRange) : Type 0 where
  pub ordered : r.start_byte ≤ r.end_byte
  pub inside : r.end_byte ≤ len s.content
  pub starts : is_char_boundary s.content r.start_byte ≡ true
  pub ends : is_char_boundary s.content r.end_byte ≡ true

pub validate_range_iff_right :
    (s : SourceSnapshot) (r : SourceRange) → validate_range s r ≡ ok tt → IsRange s r
unfolding validate_range
validate_range_iff_right s r h = record {
  ordered = ground arith;
  inside = ground arith;
  starts = ground arith;
  ends = ground arith;
}

pub IsRange-validate :
    (s : SourceSnapshot) (r : SourceRange) → IsRange s r → validate_range s r ≡ ok tt
unfolding validate_range
IsRange-validate s r h = ground (arith, h.ordered, h.inside, h.starts, h.ends)

-- Where a page may end: at a boundary, inside the requested range, and within the budget.
pub record IsEnd (s : SourceSnapshot) (r : SourceRange) (e : ℕ) : Type 0 where
  pub boundary : is_char_boundary s.content e ≡ true
  pub after_start : r.start_byte ≤ e
  pub before_end : e ≤ r.end_byte

pub page_end-IsEnd :
    (s : SourceSnapshot) (r : SourceRange) (budget : Option ℕ)
    → IsRange s r
    → IsEnd s r (page_end s r budget)
unfolding page_end
page_end-IsEnd s r none h = record {
  boundary = h.ends;
  after_start = h.ordered;
  before_end = omega arith;
}
page_end-IsEnd s r (some b) h =
    let goal = min (r.start_byte + b) r.end_byte in
    record {
      boundary = floor-boundary s.content goal;
      after_start = floor_greatest s.content goal r.start_byte h.starts (omega (arith, h.ordered));
      before_end = omega (arith, floor-le s.content goal);
    }

-- With room for four bytes a page is not empty, unless the requested range is.
pub page_end_progress :
    (s : SourceSnapshot) (r : SourceRange) (b : ℕ)
    → IsRange s r
    → 4 ≤ b
    → r.start_byte < r.end_byte
    → r.start_byte < page_end s r (some b)
unfolding page_end
page_end_progress s r b h four some_left =
    let goal = min (r.start_byte + b) r.end_byte in
    let (m, bm, lo, near, hi) =
      next_boundary s.content r.start_byte r.end_byte h.starts h.ends some_left in
    let reach : m ≤ floor_char_boundary s.content goal =
      floor_greatest s.content goal m bm (omega arith) in
    omega (arith, reach, lo)

page_end_budget :
    (s : SourceSnapshot) (r : SourceRange) (b : ℕ) → page_end s r (some b) ≤ r.start_byte + b
unfolding page_end
page_end_budget s r b = omega (arith, floor-le s.content (min (r.start_byte + b) r.end_byte))

-- The page of a requested range: it holds the bytes from the start of the range to its own end,
-- which is the start of the next range if bytes are left, and then the page is not empty.
pub record IsPage (s : SourceSnapshot) (r : SourceRange) (p : SourcePage) : Type 0 where
  pub requested : p.requested_range ≡ r
  pub begins : p.returned_range.start_byte ≡ r.start_byte
  pub bounded : p.returned_range.end_byte ≤ r.end_byte
  pub held : slice s.content r.start_byte p.returned_range.end_byte ≡ some p.content
  pub length_held : r.start_byte + len p.content ≡ p.returned_range.end_byte
  pub rest :
      ((p.next_range ≡ none) × (p.returned_range.end_byte ≡ r.end_byte))
      ⊎ ((p.next_range
            ≡ some (record { start_byte = p.returned_range.end_byte; end_byte = r.end_byte }))
          × (r.start_byte < p.returned_range.end_byte)
          × (p.returned_range.end_byte < r.end_byte))

abbrev pub page_of : SourceSnapshot → SourceRange → ℕ → SourcePage
page_of s r e = record {
  content = sliced s.content r.start_byte e;
  source_revision = s.source_revision;
  source_bytes = len s.content;
  requested_range = r;
  returned_range = record { start_byte = r.start_byte; end_byte = e };
  next_range =
      if ltb e r.end_byte then some (record { start_byte = e; end_byte = r.end_byte }) else none;
}

unfoldable pub stuck : SourceRange → ℕ → Bool
stuck r e = e == r.start_byte && ltb e r.end_byte

moved_on : (a e b : ℕ) → (e == a && ltb e b) ≡ false → ltb e b ≡ true → a ≤ e → a < e
moved_on a e b h k le = ground arith

pub page_of-IsPage :
    (s : SourceSnapshot) (r : SourceRange) (e : ℕ)
    → IsRange s r
    → IsEnd s r e
    → stuck r e ≡ false
    → IsPage s r (page_of s r e)
unfolding stuck
page_of-IsPage s r e h at moved =
    let part = between s.content r.start_byte e h.starts at.boundary at.after_start in
    let found : slice s.content r.start_byte e ≡ some part.middle = slice-Between part in
    let same : sliced s.content r.start_byte e ≡ part.middle =
      ap (λ (o : Option Text). elim o as (λ _. Text) [ none ↦ [] | some t ↦ t ]) found in
    record {
      requested = refl;
      begins = refl;
      bounded = at.before_end;
      held = found ∙ ap some (sym same);
      length_held = ap (λ t. r.start_byte + len t) same ∙ len_middle part;
      rest = elim (Bool-cases (ltb e r.end_byte)) [
        | inl less ↦ inr (
          rw less refl,
          moved_on r.start_byte e r.end_byte moved less at.after_start,
          ground arith,
        )
        | inr all_read ↦ inl (rw all_read refl, ground (arith, at.before_end))
      ];
    }

cut_page-IsPage :
    (s : SourceSnapshot) (r : SourceRange) (e : ℕ) {p : SourcePage}
    → IsRange s r
    → IsEnd s r e
    → cut_page s r e ≡ ok p
    → IsPage s r p
unfolding cut_page
cut_page-IsPage s r e h at cut =
    let (moved, same) =
      >>-inversion (refuse_if (e == r.start_byte && ltb e r.end_byte) invalid_source_range)
        (ok (page_of s r e)) cut in
    subst (IsPage s r) (ok-injective same) (
      page_of-IsPage s r e h at (
        unfold stuck in
        refuse_if-ok (e == r.start_byte && ltb e r.end_byte) invalid_source_range moved))

-- What the checks of `page` leave: a range of the note, and a budget that was cut to.
record Accepted (s : SourceSnapshot) (r : SourceRange) (max_bytes : Option ℕ) (p : SourcePage)
    : Type 0 where
  pub inside : IsRange s r
  pub budget : Option ℕ
  pub limited : (b : ℕ) → max_bytes ≡ some b → budget ≡ some b
  pub is_cut : cut_page s r (page_end s r budget) ≡ ok p

given_budget :
    (range : Option SourceRange) (max_bytes : Option ℕ) {c : Option ℕ} (b : ℕ)
    → page_budget range max_bytes ≡ ok c
    → max_bytes ≡ some b
    → c ≡ some b
unfolding page_budget validate_limit
given_budget range none b h k = absurd (ground arith)
given_budget range (some a) b h k = ground arith

page-Accepted :
    (s : SourceSnapshot) (path : Text) (expected : Option Text) (range : Option SourceRange)
    (max_bytes : Option ℕ) {p : SourcePage}
    → page s path expected range max_bytes ≡ ok p
    → Accepted s (requested_of s range) max_bytes p
unfolding page
page-Accepted s path expected range max_bytes h =
    let r = requested_of s range in
    let tail = page_budget range max_bytes >>= λ budget. cut_page s r (page_end s r budget) in
    let (_, h1) =
      >>-inversion (refuse_if (is_some range && not (is_some expected)) invalid_source_range)
        (check_revision s path expected >> (validate_range s r >> tail)) h in
    let (_, h2) = >>-inversion (check_revision s path expected) (validate_range s r >> tail) h1 in
    let (valid, h3) = >>-inversion (validate_range s r) tail h2 in
    let budgeted =
      >>=-inversion (λ budget. cut_page s r (page_end s r budget)) (page_budget range max_bytes)
        h3 in
    record {
      inside = validate_range_iff_right s r valid;
      budget = budgeted.middle;
      limited = λ b same. given_budget range max_bytes b budgeted.begun same;
      is_cut = budgeted.ended;
    }

-- A page that `page` returns is the page of the requested range, which is the whole note if the
-- caller gives none.
pub page-IsPage :
    (s : SourceSnapshot) (path : Text) (expected : Option Text) (range : Option SourceRange)
    (max_bytes : Option ℕ) {p : SourcePage}
    → page s path expected range max_bytes ≡ ok p
    → IsPage s (requested_of s range) p
page-IsPage s path expected range max_bytes h =
    let r = requested_of s range in
    let a = page-Accepted s path expected range max_bytes h in
    cut_page-IsPage s r (page_end s r a.budget) a.inside (page_end-IsEnd s r a.budget a.inside)
      a.is_cut

-- The content of a page that `page` returns has at most as many bytes as the caller allows.
pub page_bounded :
    (s : SourceSnapshot) (path : Text) (expected : Option Text) (range : Option SourceRange) (b : ℕ)
    {p : SourcePage}
    → page s path expected range (some b) ≡ ok p
    → len p.content ≤ b
unfolding cut_page
page_bounded s path expected range b {p} h =
    let r = requested_of s range in
    let a = page-Accepted s path expected range (some b) h in
    let good = page-IsPage s path expected range (some b) h in
    let (_, same) =
      >>-inversion
        (refuse_if (page_end s r a.budget == r.start_byte && ltb (page_end s r a.budget) r.end_byte)
          invalid_source_range)
        (ok (page_of s r (page_end s r a.budget))) a.is_cut in
    let ended : page_end s r a.budget ≡ p.returned_range.end_byte =
      ap (λ (q : SourcePage). q.returned_range.end_byte) (ok-injective same) in
    let limit : page_end s r a.budget ≤ r.start_byte + b =
      rw (a.limited b refl) (page_end_budget s r b) in
    omega (arith, good.length_held, ended, limit)
