-- ===== src/Procmon/Procfs.antt =====
-- procmon/cmd/procmon/procfs.go: the parsers of the files of a process.
pub mod RoundTrip
use Prim.Native.Char.{code}
use we_term.Prelude.{
  Bool, List, Option, String, [], eqb, if◌then◌else◌, none, not, some, suc, zero, ℕ, ◌∷◌,
}
use we_term.Prelude.Fields.{fields}
use we_term.Prelude.Int.{pos}
use we_term.Prelude.Numerals.{atoi, parse_uint}
use we_term.Prelude.Search.{cut, has_prefix, trim_char_right}
use we_term.Prelude.Text.{append}

-- procStat
pub record ProcStat : Type 0 where
  pub comm : String
  pub utime : ℕ
  pub stime : ℕ

-- the text before and behind the last occurrence of a character, by its code
unfoldable pub cut_last : ℕ → String → Option (String × String)
cut_last k String.[] = none
cut_last k (String.◌∷◌ c s) = elim (cut_last k s) [
  | some (before, behind) ↦ some (String.◌∷◌ c before, behind)
  | none ↦ if eqb (code c) k then some ("", s) else none
]

-- the text behind the first occurrence of a character
unfoldable pub behind_first : ℕ → String → Option String
behind_first k String.[] = none
behind_first k (String.◌∷◌ c s) =
    let later = behind_first k s in if eqb (code c) k then some s else later

-- rest[n]
unfoldable pub nth : List String → ℕ → Option String
nth [] n = none
nth (x ∷ xs) zero = some x
nth (x ∷ xs) (suc n) = nth xs n

-- the two numbers, which are both there
unfoldable pub stat_of_numbers : String → Option ℕ → Option ℕ → Option ProcStat
stat_of_numbers comm none stime = none
stat_of_numbers comm (some utime) none = none
stat_of_numbers comm (some utime) (some stime) =
    some (record { comm = comm; utime = utime; stime = stime })

-- the two texts, which are both there where there are at least 13 fields
unfoldable pub stat_of_texts : String → Option String → Option String → Option ProcStat
stat_of_texts comm none last = none
stat_of_texts comm (some first) none = none
stat_of_texts comm (some first) (some last) =
    stat_of_numbers comm (parse_uint first) (parse_uint last)

unfoldable pub stat_of_fields : String → List String → Option ProcStat
stat_of_fields comm rest = stat_of_texts comm (nth rest 11) (nth rest 12)

-- The text before the last ')' and behind it: the first '(' lies before that ')' exactly if the
-- text before it has one.
unfoldable pub stat_of_comm : String → Option String → Option ProcStat
stat_of_comm behind none = none
stat_of_comm behind (some comm) = stat_of_fields comm (fields behind)

unfoldable pub stat_of_cut : Option (String × String) → Option ProcStat
stat_of_cut none = none
stat_of_cut (some (before, behind)) = stat_of_comm behind (behind_first 40 before)

-- readProcStat, of what the file holds; none stands for an error
unfoldable pub read_proc_stat : String → Option ProcStat
read_proc_stat text = stat_of_cut (cut_last 41 text)

-- strconv.ParseUint of the second field
unfoldable pub parse_kv : String → Option ℕ
parse_kv line = elim (nth (fields line) 1) [ none ↦ none | some v ↦ parse_uint v ]

-- readVmRSS, of the lines of the file: the first line with the prefix decides
unfoldable pub read_vm_rss : List String → Option ℕ
read_vm_rss [] = some 0
read_vm_rss (line ∷ lines) =
    let later = read_vm_rss lines in if has_prefix line "VmRSS:" then parse_kv line else later

-- procIO
pub record ProcIo : Type 0 where
  pub read_bytes : ℕ
  pub write_bytes : ℕ

unfoldable pub kept_or : ℕ → Option ℕ → ℕ
kept_or old none = old
kept_or old (some v) = v

-- the body of the loop of readProcIO: a line that is no number leaves what was there
unfoldable pub io_line : String → ProcIo → ProcIo
io_line line io =
    if has_prefix line "read_bytes:"
    then record io { read_bytes = kept_or io.read_bytes (parse_kv line) }
    else if has_prefix line "write_bytes:"
    then record io { write_bytes = kept_or io.write_bytes (parse_kv line) }
    else io

unfoldable pub io_lines : List String → ProcIo → ProcIo
io_lines [] io = io
io_lines (line ∷ lines) io = io_lines lines (io_line line io)

-- bytes.ReplaceAll of NUL by a space
unfoldable pub nul_to_space : String → String
nul_to_space String.[] = ""
nul_to_space (String.◌∷◌ c s) =
    let rest = nul_to_space s in if eqb (code c) 0 then append " " rest else String.◌∷◌ c rest

-- readProcCmdline, of what the file holds
unfoldable pub read_proc_cmdline : String → String
read_proc_cmdline text = nul_to_space (trim_char_right 0 text)

-- readSystemUptime, of what the file holds
unfoldable pub read_system_uptime : String → Option ℕ
read_system_uptime text = elim (fields text) [
  | [] ↦ none
  | first ∷ others ↦ elim (cut "." first) [
    | none ↦ parse_uint first
    | some (whole, fraction) ↦ parse_uint whole
  ]
]

-- listPids, of the names in /proc, each with whether it is a directory
unfoldable pub list_pids : List (String × Bool) → List ℕ
list_pids [] = []
list_pids ((name, is_dir) ∷ entries) =
    let rest = list_pids entries in
    if not is_dir then rest else elim (atoi name) [ some (pos (suc n)) ↦ suc n ∷ rest | _ ↦ rest ]
