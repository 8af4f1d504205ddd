-- ===== src/Notify/Demote/Agrees.antt =====
-- After the demotion the report shows as Warn what is going to be mailed, and no more.
use we_term.Checker.Summary.{summarize, summarize_onto, tally, zero_summary}
use we_term.Checker.Summary.Counts.{summarize_counts}
use we_term.Model.Report.{HostCheckResult, InspectReport}
use we_term.Model.Status.{CheckResult, CheckStatus, CheckSummary, is_warn, unset}
use we_term.Notify.Alerts.{
  attribute_checks, attribute_hosts, extract_alerts, extract_checks, host_by_field,
}
use we_term.Notify.Demote.{
  demote_all, demote_check, demote_host, demote_pending, recompute_onto, recompute_summary,
  recompute_tally,
}
use we_term.Notify.Item.{AlertItem, item_key}
use we_term.Prelude.{
  Bool, List, String, [], ap, arith, count_if, false, keep, length, map, not, refl, some, sym, true,
  ◌∙◌, ◌∷◌, ◌≡◌,
}
use we_term.Prelude.Assoc.{insert, lookup, lookup_or}

recompute_tally-eq-tally : (st : CheckStatus) (s : CheckSummary) → recompute_tally st s ≡ tally st s
unfolding recompute_tally tally
recompute_tally-eq-tally unset s = refl
recompute_tally-eq-tally _ s = refl

recompute_onto-eq-summarize_onto :
    (rs : List CheckResult) (s : CheckSummary) → recompute_onto s rs ≡ summarize_onto s rs
unfolding recompute_onto summarize_onto
recompute_onto-eq-summarize_onto [] s = refl
recompute_onto-eq-summarize_onto (r ∷ rs) s =
    recompute_onto-eq-summarize_onto rs (recompute_tally r.status s)
    ∙ ap (λ t. summarize_onto t rs) (recompute_tally-eq-tally r.status s)

-- The notifier's copy of the summary function is the checker's.
recompute_summary-eq-summarize : (rs : List CheckResult) → recompute_summary rs ≡ summarize rs
unfolding recompute_summary summarize
recompute_summary-eq-summarize rs = recompute_onto-eq-summarize_onto rs zero_summary

field-demote_check :
    (pk : List (String × Bool)) (host : String) (c : CheckResult)
    → (demote_check pk host c).field ≡ c.field
unfolding demote_check
field-demote_check pk host c = ground arith

attribute_checks-demote :
    (pk : List (String × Bool)) (ip host : String) (cs : List CheckResult)
    (m : List (String × String))
    → attribute_checks ip (map (demote_check pk host) cs) m ≡ attribute_checks ip cs m
unfolding attribute_checks
attribute_checks-demote pk ip host [] m = refl
attribute_checks-demote pk ip host (c ∷ cs) m =
    rw (field-demote_check pk host c) (attribute_checks-demote pk ip host cs (insert c.field ip m))

-- The demotion changes no field name, so it changes no host attribution.
attribute_hosts-demote :
    {F : Type 0} (pk : List (String × Bool)) (hs : List (HostCheckResult F))
    (m : List (String × String))
    → attribute_hosts (map (demote_host pk) hs) m ≡ attribute_hosts hs m
unfolding attribute_hosts demote_host
attribute_hosts-demote pk [] m = refl
attribute_hosts-demote pk (h ∷ hs) m =
    attribute_hosts-demote pk hs (attribute_checks h.metrics.ip (demote_host pk h).checks m)
    ∙ ap (attribute_hosts hs) (attribute_checks-demote pk h.metrics.ip h.metrics.ip h.checks m)

-- The item is not flagged.
abbrev pub unflagged : List (String × Bool) → AlertItem → Bool
unflagged pk it = not (lookup_or false (item_key it) pk)

extract_checks-demote_all :
    (pk : List (String × Bool)) (m : List (String × String)) (cs : List CheckResult)
    → extract_checks m (demote_all pk m cs) ≡ keep (unflagged pk) (extract_checks m cs)
unfolding extract_checks demote_all
extract_checks-demote_all pk m [] = refl
extract_checks-demote_all pk m (c ∷ cs) = ground (arith, extract_checks-demote_all pk m cs)

keep_all :
    (p : AlertItem → Bool) (its : List AlertItem)
    → ((it : AlertItem) → p it ≡ true)
    → keep p its ≡ its
keep_all p [] h = refl
keep_all p (it ∷ its) h = ground (arith, h it, keep_all p its h)

pub keep-unflagged_nil :
    (pk : List (String × Bool)) (its : List AlertItem) → pk ≡ [] → keep (unflagged pk) its ≡ its
keep-unflagged_nil pk its e =
    keep_all (unflagged pk) its (λ it. rw e (unfold lookup_or lookup in refl))

-- Taking the alerts from a demoted report gives the alerts of the report that are not flagged, in
-- their order: the two functions attribute hosts alike.
pub extract_alerts-demote_pending :
    {F : Type 0} (report : InspectReport F) (pk : List (String × Bool))
    → extract_alerts (some (demote_pending report pk))
      ≡ keep (unflagged pk) (extract_alerts (some report))
unfolding extract_alerts demote_pending
extract_alerts-demote_pending report [] = sym (keep-unflagged_nil [] _ refl)
extract_alerts-demote_pending report (e ∷ pk) =
    rw (attribute_hosts-demote (e ∷ pk) report.hosts [])
      (extract_checks-demote_all (e ∷ pk) (host_by_field report.hosts) report.all_checks)

length-extract_checks :
    (m : List (String × String)) (cs : List CheckResult)
    → length (extract_checks m cs) ≡ count_if is_warn cs
unfolding extract_checks
length-extract_checks m [] = refl
length-extract_checks m (c ∷ cs) = ground (arith, length-extract_checks m cs)

-- A report's summary is that of its checks.
abbrev pub SummaryMatches : {F : Type 0} → InspectReport F → Type 0
SummaryMatches report = report.summary ≡ summarize report.all_checks

-- The demotion leaves the summary in step with the checks.
pub demote_pending-SummaryMatches :
    {F : Type 0} (report : InspectReport F) (pk : List (String × Bool))
    → SummaryMatches report
    → SummaryMatches (demote_pending report pk)
unfolding demote_pending
demote_pending-SummaryMatches report [] h = h
demote_pending-SummaryMatches report (e ∷ pk) h = recompute_summary-eq-summarize _

-- In a report whose summary is in step the number of alerts is the number of warnings shown.
pub length-extract_alerts :
    {F : Type 0} (report : InspectReport F)
    → SummaryMatches report
    → length (extract_alerts (some report)) ≡ report.summary.warn_count
unfolding extract_alerts
length-extract_alerts report h =
    length-extract_checks (host_by_field report.hosts) report.all_checks
    ∙ sym (ap (λ s. s.warn_count) h ∙ (summarize_counts report.all_checks).1)
