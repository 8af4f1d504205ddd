-- ===== src/Checker/Summary.antt =====
-- Summarize of inspect/checker/rules.go. The counters count items of a list, so they stay far
-- below the bound of an int.
pub mod Counts
use we_term.Model.Status.{CheckResult, CheckStatus, CheckSummary, notice, ok, unknown, unset, warn}
use we_term.Prelude.{List, [], ◌+◌, ◌∷◌}

abbrev pub zero_summary : CheckSummary
zero_summary = record { total = 0; ok_count = 0; warn_count = 0; unknown_count = 0 }

-- The switch in the loop; a notice, and a status that no constant names, changes nothing.
unfoldable pub tally : CheckStatus → CheckSummary → CheckSummary
tally ok s = record s { ok_count = s.ok_count + 1; total = s.total + 1 }
tally warn s = record s { warn_count = s.warn_count + 1; total = s.total + 1 }
tally unknown s = record s { unknown_count = s.unknown_count + 1; total = s.total + 1 }
tally notice s = s
tally unset s = s

unfoldable pub summarize_onto : CheckSummary → List CheckResult → CheckSummary
unfolding tally
summarize_onto s [] = s
summarize_onto s (r ∷ results) = summarize_onto (tally r.status s) results

-- Summarize
unfoldable pub summarize : List CheckResult → CheckSummary
unfolding summarize_onto
summarize results = summarize_onto zero_summary results
