-- ===== src/Procmon/Prune/Names.antt =====
-- procmon/cmd/procmon: prune.go recognises the files that collect.go writes.
use Prim.Native.Char.{Char}
use we_term.Prelude.{
  List, String, [], ap, arith, eqb, false, leb, ltb, refl, some, suc, sym, true, ℕ, ◌%◌, ◌&&◌, ◌/◌,
  ◌<◌, ◌∙◌, ◌∷◌, ◌≡◌,
}
use we_term.Prelude.Numerals.RoundTrip.{digit-digit_char, digit_char, digit_value-digit_char}
use we_term.Prelude.Search.{has_suffix, trim_suffix}
use we_term.Prelude.Search.Suffix.{has_suffix-append, size-append, trim_suffix-append}
use we_term.Prelude.Text.{append, append_assoc, concat, size}
use we_term.Procmon.Collect.{file_name, show_day}
use we_term.Procmon.Prune.{
  Day, day_digit, day_of_text, days_in, is_before, is_pruned, last_chars, midnight, parse_day,
  parse_file_date, valid_day, value_of,
}

last_chars-append : (n : ℕ) (s t : String) → size t ≡ n → last_chars n (append s t) ≡ some t
unfolding last_chars append
last_chars-append n String.[] String.[] h = let e : eqb n 0 ≡ true = ground arith in simp e refl
last_chars-append n String.[] (String.◌∷◌ c t) h =
    let e : eqb (suc (size t)) n ≡ true = ground arith in simp e refl
last_chars-append n (String.◌∷◌ c s) t h =
    let e : eqb (suc (size (append s t))) n ≡ false = ground (arith, size-append s t) in
    simp e (last_chars-append n s t h)

-- a date that time.Parse accepts, with a year of four digits
abbrev pub IsDate : Day → Type 0
IsDate t =
    (t.year < 10000)
    × ((leb 1 t.month && leb t.month 12 && leb 1 t.day && leb t.day (days_in t.year t.month))
        ≡ true)

day_digit-digit_char : (d : ℕ) → d < 10 → day_digit (digit_char d) ≡ some d
unfolding day_digit
day_digit-digit_char d h = digit_value-digit_char d h

-- the characters of a printed date
abbrev year_chars : ℕ → List Char
year_chars y =
    digit_char (y / 1000)
    ∷ digit_char (y / 100 % 10)
    ∷ digit_char (y / 10 % 10)
    ∷ digit_char (y % 10)
    ∷ []

abbrev two_chars : ℕ → List Char
two_chars n = digit_char (n / 10) ∷ digit_char (n % 10) ∷ []

value_of-year_chars : (y : ℕ) → y < 10000 → value_of (year_chars y) (some 0) ≡ some y
value_of-year_chars y h =
    simp
      (
        day_digit-digit_char (y / 1000) (omega arith),
        day_digit-digit_char (y / 100 % 10) (omega arith),
        day_digit-digit_char (y / 10 % 10) (omega arith),
        day_digit-digit_char (y % 10) (omega arith),
      )
      (ap some (omega arith))

value_of-two_chars : (n : ℕ) → n < 100 → value_of (two_chars n) (some 0) ≡ some n
value_of-two_chars n h =
    simp (day_digit-digit_char (n / 10) (omega arith), day_digit-digit_char (n % 10) (omega arith))
      (ap some (omega arith))

show_day-chars :
    (t : Day)
    → t.year < 10000
    → t.month < 100
    → t.day < 100
    → show_day t
      ≡ String.◌∷◌ (digit_char (t.year / 1000)) (
          String.◌∷◌ (digit_char (t.year / 100 % 10)) (
            String.◌∷◌ (digit_char (t.year / 10 % 10)) (
              String.◌∷◌ (digit_char (t.year % 10)) (
                append "-" (
                  String.◌∷◌ (digit_char (t.month / 10)) (
                    String.◌∷◌ (digit_char (t.month % 10)) (
                      append "-" (
                        String.◌∷◌
                          (digit_char (t.day / 10))
                          (String.◌∷◌ (digit_char (t.day % 10)) "")))))))))
unfolding show_day concat append
show_day-chars t hy hm hd =
    simp
      (
        digit-digit_char (t.year / 1000) (omega arith),
        digit-digit_char (t.year / 100 % 10) (omega arith),
        digit-digit_char (t.year / 10 % 10) (omega arith),
        digit-digit_char (t.year % 10) (omega arith),
        digit-digit_char (t.month / 10) (omega arith),
        digit-digit_char (t.month % 10) (omega arith),
        digit-digit_char (t.day / 10) (omega arith),
        digit-digit_char (t.day % 10) (omega arith),
      )
      refl

valid_day-IsDate :
    (t : Day) → IsDate t → valid_day (some t.year) (some t.month) (some t.day) ≡ some t
unfolding valid_day
valid_day-IsDate t h = simp h.1 refl

-- the month and the day of a date have two digits
small_parts : (t : Day) → IsDate t → (t.month < 100) × (t.day < 100)
small_parts t h = ground arith

parse_day-show_day : (t : Day) → IsDate t → parse_day (show_day t) ≡ some t
unfolding parse_day append
parse_day-show_day t h =
    let (hm, hd) = small_parts t h in
    rw (show_day-chars t h.0 hm hd) (
      rw
        (value_of-year_chars t.year h.0, value_of-two_chars t.month hm, value_of-two_chars t.day hd)
        (valid_day-IsDate t h))

size-show_day : (t : Day) → IsDate t → size (show_day t) ≡ 10
unfolding append
size-show_day t h = let (hm, hd) = small_parts t h in rw (show_day-chars t h.0 hm hd) refl

-- The name that runCollect gives to the file of a day, for any host name, is read back by
-- parseFileDate as that day, and runPrune deletes the file exactly if the midnight at which the day
-- began lies before the cutoff.
pub parse_file_date-file_name :
    (host : String) (t : Day) (cutoff : ℕ)
    → IsDate t
    → (parse_file_date (file_name host t) ≡ some t)
      × (is_pruned cutoff (record { name = file_name host t; is_dir = false })
          ≡ ltb (midnight t) cutoff)
unfolding parse_file_date day_of_text is_pruned is_before file_name
parse_file_date-file_name host t cutoff h = (named, rw (suffixed, named) refl)
  where
    front : String
    front = append host (append "-" (show_day t))

    grouped : file_name host t ≡ append front ".jsonl"
    grouped =
        ap (append host) (sym (append_assoc "-" (show_day t) ".jsonl"))
        ∙ sym (append_assoc host (append "-" (show_day t)) ".jsonl")

    suffixed : has_suffix (file_name host t) ".jsonl" ≡ true
    suffixed = ap (λ n. has_suffix n ".jsonl") grouped ∙ has_suffix-append front ".jsonl"

    date_text : last_chars 10 (trim_suffix ".jsonl" (file_name host t)) ≡ some (show_day t)
    date_text =
        ap (λ n. last_chars 10 (trim_suffix ".jsonl" n)) grouped
        ∙ ap (last_chars 10)
            (trim_suffix-append front ".jsonl" refl ∙ sym (append_assoc host "-" (show_day t)))
        ∙ last_chars-append 10 (append host "-") (show_day t) (size-show_day t h)

    named : parse_file_date (file_name host t) ≡ some t
    named = ap day_of_text date_text ∙ parse_day-show_day t h
