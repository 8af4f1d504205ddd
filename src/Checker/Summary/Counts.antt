-- ===== src/Checker/Summary/Counts.antt =====
-- The summary counts what it says.
use we_term.Checker.Summary.{summarize, summarize_onto, tally, zero_summary}
use we_term.Model.Status.{CheckResult, CheckStatus, CheckSummary, is_ok, is_unknown, is_warn, unset}
use we_term.Prelude.{List, [], arith, count_if, if◌then◌else◌, refl, ◌+◌, ◌||◌, ◌∷◌, ◌≡◌}

-- What the four counters are, with `s` counted before.
record Counts (s t : CheckSummary) (results : List CheckResult) : Type 0 where
  oks : t.ok_count ≡ s.ok_count + count_if is_ok results
  warns : t.warn_count ≡ s.warn_count + count_if is_warn results
  unknowns : t.unknown_count ≡ s.unknown_count + count_if is_unknown results
  totals :
      t.total
      ≡ s.total + count_if is_ok results + count_if is_warn results + count_if is_unknown results

tally-Counts :
    (st : CheckStatus) (s t : CheckSummary) (r : CheckResult) (rs : List CheckResult)
    → r.status ≡ st
    → Counts (tally st s) t rs
    → Counts s t (r ∷ rs)
unfolding tally
tally-Counts unset s t r rs e c = ground (arith, c.oks, c.warns, c.unknowns, c.totals)
tally-Counts _ s t r rs e c = ground (arith, c.oks, c.warns, c.unknowns, c.totals)

summarize_onto-Counts :
    (s : CheckSummary) (rs : List CheckResult) → Counts s (summarize_onto s rs) rs
unfolding summarize_onto
summarize_onto-Counts s [] = omega arith
summarize_onto-Counts s (r ∷ rs) =
    tally-Counts r.status s _ r rs refl (summarize_onto-Counts (tally r.status s) rs)

-- no entry has two statuses
status_once :
    (r : CheckResult)
    → ((if is_ok r || is_warn r || is_unknown r then 1 else 0)
        ≡ (if is_ok r then 1 else 0)
          + (if is_warn r then 1 else 0)
          + (if is_unknown r then 1 else 0))
status_once r = ground arith

count_graded :
    (rs : List CheckResult)
    → count_if (λ r. is_ok r || is_warn r || is_unknown r) rs
      ≡ count_if is_ok rs + count_if is_warn rs + count_if is_unknown rs
count_graded [] = refl
count_graded (r ∷ rs) = omega (arith, status_once r, count_graded rs)

-- The summary counts the entries that are ok, those that are warn and those that are unknown, and
-- the total is the number of entries of these three statuses.
pub summarize_counts :
    (rs : List CheckResult)
    → ((summarize rs).ok_count ≡ count_if is_ok rs)
      × ((summarize rs).warn_count ≡ count_if is_warn rs)
      × ((summarize rs).unknown_count ≡ count_if is_unknown rs)
      × ((summarize rs).total ≡ count_if (λ r. is_ok r || is_warn r || is_unknown r) rs)
unfolding summarize
summarize_counts rs =
    let c = summarize_onto-Counts zero_summary rs in
    (
      omega (arith, c.oks),
      omega (arith, c.warns),
      omega (arith, c.unknowns),
      omega (arith, c.totals, count_graded rs),
    )
