-- ===== src/Procmon/Prune.antt =====
-- procmon/cmd/procmon/prune.go: the data files that are deleted, by the dates in their names.
pub mod Names
pub mod Loop
use Prim.Native.Char.{Char, code}
use we_term.Prelude.{
  Bool, List, Option, String, [], eqb, false, if◌then◌else◌, leb, ltb, none, not, some, suc, true,
  zero, ℕ, ◌%◌, ◌&&◌, ◌*◌, ◌+◌, ◌-◌, ◌/◌, ◌^◌, ◌||◌, ◌∷◌,
}
use we_term.Prelude.Int.{ltb_ℤ, pos, ℤ}
use we_term.Prelude.Numerals.{digit_value}
use we_term.Prelude.Search.{has_suffix, trim_suffix}
use we_term.Prelude.Text.{size}

-- a civil date
pub record Day : Type 0 where
  pub year : ℕ
  pub month : ℕ
  pub day : ℕ

abbrev pub is_leap : ℕ → Bool
is_leap y = eqb (y % 4) 0 && (not (eqb (y % 100) 0) || eqb (y % 400) 0)

-- the number of days of a month
abbrev pub days_in : ℕ → ℕ → ℕ
days_in y m =
    if eqb m 2
    then if is_leap y then 29 else 28
    else if eqb m 4 || eqb m 6 || eqb m 9 || eqb m 11
    then 30
    else 31

-- the value of a digit, and of a run of digits
unfoldable pub day_digit : Char → Option ℕ
day_digit c = digit_value c

abbrev pub push_digit : Option ℕ → Option ℕ → Option ℕ
push_digit (some n) (some d) = some (10 * n + d)
push_digit (some n) none = none
push_digit none d = none

abbrev pub value_of : List Char → Option ℕ → Option ℕ
value_of [] n = n
value_of (c ∷ cs) n = value_of cs (push_digit n (day_digit c))

-- the range tests of time.Parse
unfoldable pub valid_day : Option ℕ → Option ℕ → Option ℕ → Option Day
valid_day (some y) (some m) (some d) =
    if leb 1 m && leb m 12 && leb 1 d && leb d (days_in y m)
    then some (record { year = y; month = m; day = d })
    else none
valid_day _ _ _ = none

-- time.Parse("2006-01-02", s), with none for an error
unfoldable pub parse_day : String → Option Day
parse_day
      (String.◌∷◌ a (
        String.◌∷◌ b (
          String.◌∷◌ c (
            String.◌∷◌ d (
              String.◌∷◌ e (
                String.◌∷◌ f
                  (String.◌∷◌ g (String.◌∷◌ h (String.◌∷◌ i (String.◌∷◌ j String.[])))))))))) =
    if eqb (code e) 45 && eqb (code h) 45
    then valid_day (value_of (a ∷ b ∷ c ∷ d ∷ []) (some 0)) (value_of (f ∷ g ∷ []) (some 0))
        (value_of (i ∷ j ∷ []) (some 0))
    else none
parse_day _ = none

-- s[len(s)-n:], none where the text is shorter
unfoldable pub last_chars : ℕ → String → Option String
last_chars n String.[] = if eqb n 0 then some "" else none
last_chars n (String.◌∷◌ c s) =
    let shorter = last_chars n s in if eqb (suc (size s)) n then some (String.◌∷◌ c s) else shorter

unfoldable pub day_of_text : Option String → Option Day
day_of_text none = none
day_of_text (some text) = parse_day text

-- parseFileDate
unfoldable pub parse_file_date : String → Option Day
parse_file_date name = day_of_text (last_chars 10 (trim_suffix ".jsonl" name))

-- the number of days before a year and before a month of it
abbrev pub days_before_year : ℕ → ℕ
days_before_year y = 365 * y + (y + 3) / 4 - (y + 99) / 100 + (y + 399) / 400

abbrev days_before_month : ℕ → ℕ → ℕ
days_before_month y zero = 0
days_before_month y (suc zero) = 0
days_before_month y (suc (suc m)) = days_before_month y (suc m) + days_in y (suc m)

-- the nanoseconds from the start of the year 0 to the midnight, in UTC, at which a date begins
unfoldable pub midnight : Day → ℕ
midnight t =
    (days_before_year t.year + days_before_month t.year t.month + (t.day - 1)) * 86400 * 10 ^ 9

-- An entry of the data directory.
pub record DirEntry : Type 0 where
  pub name : String
  pub is_dir : Bool

-- day.Before(cutoff), for a name with a date
unfoldable pub is_before : ℕ → Option Day → Bool
is_before cutoff none = false
is_before cutoff (some t) = ltb (midnight t) cutoff

-- the files that the loop of runPrune tries to remove; `cutoff` is the time keepDays ago
unfoldable pub is_pruned : ℕ → DirEntry → Bool
is_pruned cutoff e =
    if e.is_dir
    then false
    else if not (has_suffix e.name ".jsonl")
    then false
    else is_before cutoff (parse_file_date e.name)

-- the body of the loop: `removes` is whether os.Remove goes through
unfoldable pub prune_step : (String → Bool) → Bool → String → List String × ℕ → List String × ℕ
prune_step removes false name later = later
prune_step removes true name later = if removes name then (name ∷ later.0, later.1 + 1) else later

-- the loop of runPrune: the names removed, and how many
unfoldable pub prune_loop : (String → Bool) → ℕ → List DirEntry → List String × ℕ
prune_loop removes cutoff [] = ([], 0)
prune_loop removes cutoff (e ∷ entries) =
    prune_step removes (is_pruned cutoff e) e.name (prune_loop removes cutoff entries)

-- os.ReadDir of the data directory
pub data Listing : Type 0 where
  missing_dir : Listing
  unreadable_dir : Listing
  listed : List DirEntry → Listing

-- runPrune behind the flags: the exit code, and the names removed
unfoldable pub run_prune : (String → Bool) → ℤ → ℕ → Listing → ℕ × List String
run_prune removes keep_days cutoff listing =
    if ltb_ℤ keep_days (pos 1) then (2, []) else elim listing [
      | missing_dir ↦ (0, [])
      | unreadable_dir ↦ (1, [])
      | listed entries ↦ (0, (prune_loop removes cutoff entries).0)
    ]
