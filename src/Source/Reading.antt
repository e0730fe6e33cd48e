-- ===== src/Source/Reading.antt =====
-- A reader that follows `next_range` from page to page gets the whole range.
use obsidian_mcp.Common.{
  ℕ, zero, suc, ◌-◌, ◌≤◌, ◌<◌, ◌≡◌, subst, false, none, some, ◌++◌, arith, ltb, Bool-cases, inl,
  inr,
}
use obsidian_mcp.Text.{Text, slice}
use obsidian_mcp.Text.Compare.{text_eq_refl}
use obsidian_mcp.Text.Slices.{slice-append}
use obsidian_mcp.Errors.{Result, ok, err, invalid_source_range, ◌>>=◌}
use obsidian_mcp.Source.{
  SourceRange, SourceSnapshot, page, page_end, page_budget, cut_page, check_revision,
  validate_limit, validate_revision, max_page_bytes, sliced,
}
use obsidian_mcp.Source.Pages.{
  IsRange, IsRange-validate, page_end-IsEnd, page_end_progress, page_of-IsPage, page_of, stuck,
}

-- One page after the other, each requested with the revision of the first, until none is left. The
-- fuel bounds the number of pages.
pub read_all : ℕ → SourceSnapshot → Text → ℕ → SourceRange → Result Text
read_all zero s path max_bytes r = err invalid_source_range
read_all (suc fuel) s path max_bytes r =
    page s path (some s.source_revision) (some r) (some max_bytes) >>= λ p. elim p.next_range [
      | none ↦ ok p.content
      | some next ↦ read_all fuel s path max_bytes next >>= λ rest. ok (p.content ++ rest)
    ]

module _ (s : SourceSnapshot) (path : Text) (max_bytes : ℕ)
    (revised : validate_revision s.source_revision ≡ ok tt) (room : 4 ≤ max_bytes)
    (capped : max_bytes ≤ max_page_bytes) where
  limited : validate_limit max_bytes max_page_bytes ≡ ok max_bytes
  unfolding validate_limit
  limited = ground arith

  unchanged : check_revision s path (some s.source_revision) ≡ ok tt
  unfolding check_revision
  unchanged = rw (revised, text_eq_refl)

  not_stuck : (r : SourceRange) → IsRange s r → stuck r (page_end s r (some max_bytes)) ≡ false
  unfolding stuck
  not_stuck r h = ground (arith, page_end_progress s r max_bytes h room)

  -- With room for any character and the revision of the note, a page is returned.
  page_returns :
      (r : SourceRange)
      → IsRange s r
      → page s path (some s.source_revision) (some r) (some max_bytes)
        ≡ ok (page_of s r (page_end s r (some max_bytes)))
  unfolding page page_budget cut_page stuck
  page_returns r h = rw (unchanged, IsRange-validate s r h, limited, not_stuck r h)

  -- For a range of a note with a valid revision and a limit of at least four bytes and at most 256 KiB,
  -- a reader that follows the pages gets exactly the bytes of the range, in no more rounds than the range has bytes and one.
  pub read_all-slice :
      (fuel : ℕ) (r : SourceRange)
      → IsRange s r
      → r.end_byte - r.start_byte < fuel
      → (t : Text) × (slice s.content r.start_byte r.end_byte ≡ some t)
        × (read_all fuel s path max_bytes r ≡ ok t)
  unfolding read_all
  read_all-slice zero r h few = absurd (omega arith)
  read_all-slice (suc fuel) r h few =
      let e = page_end s r (some max_bytes) in
      let at = page_end-IsEnd s r (some max_bytes) h in
      let good = page_of-IsPage s r e h at (not_stuck r h) in
      elim (Bool-cases (ltb e r.end_byte)) [
        | inl more ↦
            let next : SourceRange = record { start_byte = e; end_byte = r.end_byte } in
            let left : e < r.end_byte = ground arith in
            let progress = page_end_progress s r max_bytes h room (omega (arith, at.after_start)) in
            let (rest, held, is_read) =
              read_all-slice fuel next
                (record {
                  ordered = at.before_end;
                  inside = h.inside;
                  starts = at.boundary;
                  ends = h.ends;
                })
                (omega (arith, progress, few)) in
            (
              sliced s.content r.start_byte e ++ rest,
              slice-append s.content r.start_byte e r.end_byte h.starts at.boundary h.ends
                  at.after_start at.before_end good.held held,
              rw (page_returns r h, more, is_read),
            )
        | inr last ↦
            let whole : e ≡ r.end_byte = ground (arith, at.before_end) in
            (
              sliced s.content r.start_byte e,
              subst (λ n. slice s.content r.start_byte n ≡ some (sliced s.content r.start_byte e))
                  whole good.held,
              rw (page_returns r h, last),
            )
      ]
