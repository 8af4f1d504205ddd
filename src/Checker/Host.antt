-- ===== src/Checker/Host.antt =====
-- inspect/checker/rules.go: CheckHost.
pub mod Health
use we_term.Config.Thresholds.{Thresholds}
use we_term.Model.Float.{FloatOps}
use we_term.Model.Host.{DiskUsage, HostMetrics}
use we_term.Model.Status.{CheckResult, ok, warn}
use we_term.Prelude.{Bool, List, String, [], if◌then◌else◌, map, not, ◌&&◌, ◌++◌, ◌==◌, ◌∷◌}
use we_term.Prelude.Int.{ltb_ℤ}
use we_term.Prelude.Search.{trim_suffix}
use we_term.Prelude.Text.{concat, itoa}

-- `add` of a rule: a warning if the rule breached, and OK if not.
unfoldable pub grade : Bool → String → String → String → CheckResult
grade breached field value threshold = record {
  field = field;
  value = value;
  status = if breached then warn else ok;
  threshold = threshold;
}

module _ {F : Type 0} ⦃fl : FloatOps F⦄ where
  -- fmt.Sprintf("≥ %.0f%%", threshold)
  unfoldable pub percent_threshold : F → String
  unfolding concat
  percent_threshold t = concat ("≥ " ∷ fl.show_fixed 0 t ∷ "%" ∷ [])

  -- fmt.Sprintf("%.2f%%", value)
  unfoldable pub percent_value : F → String
  unfolding concat
  percent_value v = concat (fl.show_fixed 2 v ∷ "%" ∷ [])

  -- the number that a disk entry is judged by: a zero is read again from the text
  unfoldable pub usage_number : DiskUsage F → F
  unfolding trim_suffix
  usage_number du =
      if fl.equal du.usage_float fl.zero_float
      then (fl.parse_float (trim_suffix "%" du.usage)).0
      else du.usage_float

  -- the loop body for a disk or an inode entry
  unfoldable pub check_usage : String → F → DiskUsage F → CheckResult
  unfolding usage_number grade concat percent_threshold
  check_usage name threshold du =
      grade (fl.less_eq threshold (usage_number du))
        (concat (name ∷ "(" ∷ du.mount_point ∷ ")" ∷ [])) du.usage (percent_threshold threshold)

  -- the four load figures, "%.2f/%.2f/%.2f (cores: %d)"
  unfoldable pub load_value : HostMetrics F → String
  unfolding concat itoa
  load_value h = concat (
      fl.show_fixed 2 h.load_avg1
      ∷ "/"
      ∷ fl.show_fixed 2 h.load_avg5
      ∷ "/"
      ∷ fl.show_fixed 2 h.load_avg15
      ∷ " (cores: "
      ∷ itoa h.core
      ∷ ")"
      ∷ [])

  -- loadavg1 > loadavg5 > loadavg15 > cores
  unfoldable pub load_climbs : HostMetrics F → Bool
  load_climbs h =
      fl.less h.load_avg5 h.load_avg1
      && fl.less h.load_avg15 h.load_avg5
      && fl.less (fl.of_int h.core) h.load_avg15

  -- CheckHost
  unfoldable pub check_host : HostMetrics F → Thresholds F → List CheckResult
  check_host h t =
      grade (fl.less_eq t.cpu_usage h.cpu_usage) "cpu_usage" (percent_value h.cpu_usage)
        (percent_threshold t.cpu_usage)
      ∷ grade (fl.less_eq t.mem_usage h.mem_usage) "mem_usage" (percent_value h.mem_usage)
          (percent_threshold t.mem_usage)
      ∷ (map (check_usage "disk_usage" t.disk_usage) h.disk_usage
          ++ (map (check_usage "inode_usage" t.inode_usage) h.inode_usage
              ++ (grade (ltb_ℤ h.max_open_files t.max_open_files) "max_open_files"
                    (itoa h.max_open_files) (concat ("< " ∷ itoa t.max_open_files ∷ []))
                  ∷ grade (not (h.selinux == "Disabled") && not (h.selinux == "N/A")) "selinux"
                      h.selinux "期望 Disabled"
                  ∷ grade (not (h.firewalld == "inactive") && not (h.firewalld == "N/A"))
                      "firewalld" h.firewalld "期望 inactive"
                  ∷ grade (not (h.chronyd == "active") && not (h.chronyd == "N/A")) "chronyd"
                      h.chronyd "期望 active"
                  ∷ grade (load_climbs h) "load_average" (load_value h) ""
                  ∷ [])))
