-- ===== src/Procmon/Procfs/RoundTrip.antt =====
-- procmon/cmd/procmon/procfs.go: readProcStat reads what the kernel writes.
use Prim.Native.Char.{Char, code}
use mathlib.Core.Path.{ap₂}
use we_term.Prelude.{
  All, List, String, [], ap, arith, eqb, false, none, refl, some, sym, true, ℕ, ◌<◌, ◌^◌, ◌∙◌, ◌∷◌,
  ◌≡◌,
}
use we_term.Prelude.Fields.{IsWord, join}
use we_term.Prelude.Fields.RoundTrip.{fields-space_join}
use we_term.Prelude.Int.{pos}
use we_term.Prelude.Numerals.RoundTrip.{has_no, has_no-itoa, parse_uint-itoa}
use we_term.Prelude.Text.{append, append_assoc, itoa}
use we_term.Procmon.Procfs.{
  behind_first, cut_last, nth, read_proc_stat, stat_of_comm, stat_of_cut, stat_of_fields,
  stat_of_numbers, stat_of_texts,
}

cut_last-none : (k : ℕ) (s : String) → has_no k s ≡ true → cut_last k s ≡ none
unfolding cut_last
cut_last-none k String.[] h = refl
cut_last-none k (String.◌∷◌ c s) h =
    let e : eqb (code c) k ≡ false = ground arith in simp (cut_last-none k s (ground arith), e) refl

cut_last-append :
    (k : ℕ) (c : Char) (before behind : String)
    → eqb (code c) k ≡ true
    → has_no k behind ≡ true
    → cut_last k (append before (String.◌∷◌ c behind)) ≡ some (before, behind)
unfolding cut_last append
cut_last-append k c String.[] behind hc h = simp (cut_last-none k behind h, hc) refl
cut_last-append k c (String.◌∷◌ b before) behind hc h =
    simp (cut_last-append k c before behind hc h) refl

behind_first-append :
    (k : ℕ) (c : Char) (before behind : String)
    → eqb (code c) k ≡ true
    → has_no k before ≡ true
    → behind_first k (append before (String.◌∷◌ c behind)) ≡ some behind
unfolding behind_first append
behind_first-append k c String.[] behind hc h = simp hc refl
behind_first-append k c (String.◌∷◌ b before) behind hc h =
    let e : eqb (code b) k ≡ false = ground arith in
    simp e (behind_first-append k c before behind hc (ground arith))

has_no-append :
    (k : ℕ) (s t : String) → has_no k s ≡ true → has_no k t ≡ true → has_no k (append s t) ≡ true
unfolding append
has_no-append k String.[] t hs ht = ht
has_no-append k (String.◌∷◌ c s) t hs ht = ground (arith, has_no-append k s t (ground arith) ht)

has_no-join :
    (k : ℕ) (sep : String) (ws : List String)
    → has_no k sep ≡ true
    → All (λ w. has_no k w ≡ true) ws
    → has_no k (join sep ws) ≡ true
unfolding join
has_no-join k sep [] hs h = refl
has_no-join k sep (w ∷ []) hs h = h.0
has_no-join k sep (w ∷ v ∷ ws) hs h =
    has_no-append k w (append sep (join sep (v ∷ ws))) h.0
      (has_no-append k sep (join sep (v ∷ ws)) hs (has_no-join k sep (v ∷ ws) hs h.1))

-- a line of /proc/<pid>/stat: the number, the name in parentheses and the other fields
abbrev pub stat_line : ℕ → String → List String → String
stat_line pid comm ws =
    append (itoa (pos pid)) (append " (" (append comm (append ") " (join " " ws))))

stat_of_fields-printed :
    (comm : String) (ws : List String) (utime stime : ℕ)
    → nth ws 11 ≡ some (itoa (pos utime))
    → nth ws 12 ≡ some (itoa (pos stime))
    → utime < 2 ^ 64
    → stime < 2 ^ 64
    → stat_of_fields comm ws ≡ some (record { comm = comm; utime = utime; stime = stime })
unfolding stat_of_fields stat_of_texts stat_of_numbers
stat_of_fields-printed comm ws utime stime u s lu ls =
    ap₂ (stat_of_texts comm) u s
    ∙ ap₂ (stat_of_numbers comm) (parse_uint-itoa utime lu) (parse_uint-itoa stime ls)

-- From a line with a process number, any name at all, also one with spaces or parentheses of its
-- own, and fields that are words without ')', of which the twelfth and the thirteenth behind the
-- name are two counters printed in decimal, readProcStat gets back the name and both counters.
pub read_proc_stat-stat_line :
    (pid : ℕ) (comm : String) (ws : List String) (utime stime : ℕ)
    → All IsWord ws
    → All (λ w. has_no 41 w ≡ true) ws
    → nth ws 11 ≡ some (itoa (pos utime))
    → nth ws 12 ≡ some (itoa (pos stime))
    → utime < 2 ^ 64
    → stime < 2 ^ 64
    → read_proc_stat (stat_line pid comm ws)
      ≡ some (record { comm = comm; utime = utime; stime = stime })
unfolding read_proc_stat stat_of_cut stat_of_comm append
read_proc_stat-stat_line pid comm ws utime stime words plain u s lu ls =
    ap stat_of_cut cut_at_end
    ∙ ap (stat_of_comm (append " " (join " " ws))) cut_at_start
    ∙ ap (stat_of_fields comm) (fields-space_join ws words)
    ∙ stat_of_fields-printed comm ws utime stime u s lu ls
  where
    before : String
    before = append (itoa (pos pid)) (append " (" comm)

    regrouped : stat_line pid comm ws ≡ append before (String.◌∷◌ ")" (append " " (join " " ws)))
    regrouped = sym (
        append_assoc (itoa (pos pid)) (append " (" comm)
          (String.◌∷◌ ")" (append " " (join " " ws))))

    cut_at_end : cut_last 41 (stat_line pid comm ws) ≡ some (before, append " " (join " " ws))
    cut_at_end =
        ap (cut_last 41) regrouped
        ∙ cut_last-append 41 ")" before (append " " (join " " ws)) refl
            (has_no-append 41 " " (join " " ws) refl (has_no-join 41 " " ws refl plain))

    number_has_no : has_no 40 (append (itoa (pos pid)) " ") ≡ true
    number_has_no = has_no-append 40 (itoa (pos pid)) " " (has_no-itoa 40 pid (omega arith)) refl

    cut_at_start : behind_first 40 before ≡ some comm
    cut_at_start =
        ap (behind_first 40) (sym (append_assoc (itoa (pos pid)) " " (append "(" comm)))
        ∙ behind_first-append 40 "(" (append (itoa (pos pid)) " ") comm refl number_has_no
