-- ===== src/Notify/Email.antt =====
-- inspect/notify/email.go: the texts of the mails.
use we_term.Model.Report.{InspectReport}
use we_term.Model.Status.{CheckSummary}
use we_term.Notify.Item.{AlertItem}
use we_term.Prelude.{
  Bool, List, String, [], if◌then◌else◌, map, not, refl, suc, zero, ℕ, ◌-◌, ◌==◌, ◌∷◌, ◌≡◌,
}
use we_term.Prelude.Int.{pos}
use we_term.Prelude.Order.{sort_by, text_leb}
use we_term.Prelude.Text.{append, concat, itoa, size}

-- `%d` of a counter
abbrev show : ℕ → String
show n = itoa (pos n)

spaces : ℕ → String
spaces zero = ""
spaces (suc n) = String.◌∷◌ " " (spaces n)

-- `%-16s`: spaces behind the text, up to the width
unfoldable pub pad_right : ℕ → String → String
unfolding spaces append
pad_right width s = append s (spaces (width - size s))

-- BuildAlertSubject
unfoldable pub build_alert_subject : CheckSummary → String
unfolding concat itoa
build_alert_subject s =
    concat ("[WeOps 巡检告警] " ∷ show s.warn_count ∷ "/" ∷ show s.total ∷ " 项异常" ∷ [])

-- BuildRecoverySubject
unfoldable pub build_recovery_subject : CheckSummary → String
unfolding concat itoa
build_recovery_subject s = concat ("[WeOps 巡检恢复] 全部正常 (" ∷ show s.total ∷ " 项检查)" ∷ [])

-- The order of the lines: by host, then by field. Of items that are alike in both, sort.Slice
-- promises no order; here they keep theirs.
unfoldable pub item_leb : AlertItem → AlertItem → Bool
unfolding text_leb
item_leb a b = if a.host == b.host then text_leb a.field b.field else text_leb a.host b.host

unfoldable pub alert_line : AlertItem → String
unfolding pad_right concat
alert_line it =
    let host = if it.host == "" then "-" else it.host in
    if not (it.threshold == "")
    then concat (
        "  "
        ∷ pad_right 16 host
        ∷ " "
        ∷ pad_right 40 it.field
        ∷ " = "
        ∷ it.value
        ∷ "  (阈值 "
        ∷ it.threshold
        ∷ ")\n"
        ∷ [])
    else concat
        ("  " ∷ pad_right 16 host ∷ " " ∷ pad_right 40 it.field ∷ " = " ∷ it.value ∷ "\n" ∷ [])

module _ {F : Type 0} where
  -- BuildAlertBody
  unfoldable pub build_alert_body : InspectReport F → List AlertItem → String
  unfolding alert_line concat itoa sort_by item_leb
  build_alert_body report items = concat (
      "[WeOps 巡检告警] "
      ∷ report.timestamp
      ∷ "\n"
      ∷ "Summary: 共 "
      ∷ show report.summary.total
      ∷ " 项检查，"
      ∷ show report.summary.ok_count
      ∷ " 正常，"
      ∷ show report.summary.warn_count
      ∷ " 告警，"
      ∷ show report.summary.unknown_count
      ∷ " 未知\n\n"
      ∷ "告警明细:\n"
      ∷ concat (map alert_line (sort_by item_leb items))
      ∷ "\n详见附件 weops_inspection.html。\n"
      ∷ [])

  -- BuildRecoveryBody
  unfoldable pub build_recovery_body : InspectReport F → String
  unfolding concat itoa
  build_recovery_body report = concat (
      "[WeOps 巡检恢复] "
      ∷ report.timestamp
      ∷ "\n\n所有检查项已恢复正常 (共 "
      ∷ show report.summary.total
      ∷ " 项)。详见附件。\n"
      ∷ [])

subject_test :
    build_alert_subject (record { total = 12; ok_count = 9; warn_count = 3; unknown_count = 0 })
    ≡ "[WeOps 巡检告警] 3/12 项异常"
unfolding build_alert_subject
subject_test = refl

line_test :
    alert_line (record { host = ""; field = "cpu_usage"; value = "98%"; threshold = "" })
    ≡ "  -                cpu_usage                                = 98%\n"
unfolding alert_line
line_test = refl
