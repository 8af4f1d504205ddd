-- ===== src/Collector/Host.antt =====
-- inspect/collector/host.go: the metrics of a host, from the output of its commands.
use Prim.Native.Char.{code}
use we_term.Model.Float.{FloatOps}
use we_term.Model.Host.{NetworkStats}
use we_term.Prelude.{
  List, String, [], if◌then◌else◌, leb, length, ltb, none, not, some, suc, zero, ℕ, ◌&&◌, ◌==◌, ◌∷◌,
}
use we_term.Prelude.Fields.{fields, join}
use we_term.Prelude.Int.{pos, ℤ}
use we_term.Prelude.Numerals.{atoi_value}
use we_term.Prelude.Search.{cut, has_prefix}
use we_term.Prelude.Text.{concat}
use we_term.Prelude.Words.{split_on, trim_space}

-- the first item at a position, "" behind the end
abbrev nth : List String → ℕ → String
nth [] n = ""
nth (x ∷ xs) zero = x
nth (x ∷ xs) (suc n) = nth xs n

-- fields[1:]
abbrev behind_first : List String → List String
behind_first [] = []
behind_first (x ∷ xs) = xs

module _ {F : Type 0} ⦃fl : FloatOps F⦄ where
  -- v, _ := strconv.ParseFloat(s, 64)
  abbrev float_of : String → F
  float_of s = (fl.parse_float s).0

  -- total += v over the fields
  unfoldable pub sum_fields : List String → F → F
  sum_fields [] total = total
  sum_fields (f ∷ fs) total = sum_fields fs (fl.plus total (float_of f))

  -- the function `parse` of parseCPUUsage: idle and total
  unfoldable pub parse_cpu_line : String → F × F
  parse_cpu_line line =
      let columns = fields line in
      if ltb (length columns) 5
      then (fl.zero_float, fl.zero_float)
      else (float_of (nth columns 4), sum_fields (behind_first columns) fl.zero_float)

  -- parseCPUUsage
  unfoldable pub parse_cpu_usage : String → String → F
  parse_cpu_usage stat1 stat2 =
      if fl.equal delta_total fl.zero_float
      then fl.zero_float
      else fl.over (fl.of_int (fl.truncate (fl.times usage (fl.of_int (pos 100)))))
          (fl.of_int (pos 100))
    where
      delta_total : F
      delta_total = fl.minus (parse_cpu_line stat2).1 (parse_cpu_line stat1).1

      delta_idle : F
      delta_idle = fl.minus (parse_cpu_line stat2).0 (parse_cpu_line stat1).0

      usage : F
      usage =
          fl.times (fl.minus (fl.of_int (pos 1)) (fl.over delta_idle delta_total))
            (fl.of_int (pos 100))

  -- float64(int(used/total*10000)) / 100, where the total is positive
  unfoldable pub percent_used : List String → F → F
  percent_used columns unchanged =
      let total = float_of (nth columns 1) in
      let used = float_of (nth columns 2) in
      if fl.less fl.zero_float total
      then fl.over (fl.of_int (fl.truncate (fl.times (fl.over used total) (fl.of_int (pos 10000)))))
          (fl.of_int (pos 100))
      else unchanged

  unfoldable pub free_line : String → F × F → F × F
  free_line line (mem_usage, swap_usage) =
      let columns = fields line in
      if ltb (length columns) 3 then (mem_usage, swap_usage) else (
        if has_prefix line "Mem:" then percent_used columns mem_usage else mem_usage,
        if has_prefix line "Swap:" then percent_used columns swap_usage else swap_usage,
      )

  unfoldable pub free_lines : List String → F × F → F × F
  free_lines [] found = found
  free_lines (line ∷ lines) found = free_lines lines (free_line line found)

  -- parseFree
  unfoldable pub parse_free : String → F × F
  parse_free output = free_lines (split_on 10 output) (fl.zero_float, fl.zero_float)

-- the digits at the start
unfoldable pub leading_digits : String → String
leading_digits String.[] = ""
leading_digits (String.◌∷◌ c s) =
    let rest = String.◌∷◌ c (leading_digits s) in
    if leb 48 (code c) && leb (code c) 57 then rest else ""

-- extractNumber
unfoldable pub extract_number : String → ℤ
extract_number s = atoi_value (leading_digits s)

-- the number behind a word of the line, where the word stands in it
unfoldable pub number_behind : String → String → ℤ → ℤ
number_behind word line unchanged = elim (cut word line) [
  | none ↦ unchanged
  | some (before, after) ↦ extract_number after
]

unfoldable pub ss_line : String → NetworkStats → NetworkStats
ss_line raw stats =
    let line = trim_space raw in
    if has_prefix line "TCP:"
    then record stats {
      established = number_behind "estab " line stats.established;
      time_wait = number_behind "timewait " line stats.time_wait;
    }
    else stats

unfoldable pub ss_lines : List String → NetworkStats → NetworkStats
ss_lines [] stats = stats
ss_lines (line ∷ lines) stats = ss_lines lines (ss_line line stats)

unfoldable pub no_stats : NetworkStats
no_stats = record { close_wait = pos 0; established = pos 0; listen = pos 0; time_wait = pos 0 }

-- parseSSOutput
unfoldable pub parse_ss_output : String → NetworkStats
parse_ss_output output = ss_lines (split_on 10 output) no_stats

-- appendDiskWarning
unfoldable pub append_disk_warning : String → String → List String → String
append_disk_warning existing mount_paths seen_mounts =
    if existing == "" then message else concat (existing ∷ "; " ∷ message ∷ [])
  where
    message : String
    message =
        if not (trim_space mount_paths == "")
        then concat (
            "disk: configured mount paths ["
            ∷ mount_paths
            ∷ "] did not match any of ["
            ∷ join " " seen_mounts
            ∷ "]"
            ∷ [])
        else "disk: no real filesystem matched (try INSPECT_DISK_INCLUDE_NFS=true if this host only has NFS mounts)"
