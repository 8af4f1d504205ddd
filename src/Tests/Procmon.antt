-- ===== src/Tests/Procmon.antt =====
-- Concrete cases of the theorems about procmon and inspect/lock.
use we_term.Lock.{FlockError, Kernel, KernelLaws, acquire, busy, lock_opened, would_block}
use we_term.Lock.System.{Reach, System, acquires, here, joins, later, runs_alone, turned_away}
use we_term.Prelude.{
  All, Bool, Bool-cases, List, Option, String, [], ap, arith, eqb, false, if◌then◌else◌, inl, inr,
  length, ltb, none, not, refl, some, sym, true, ℕ, ◌&&◌, ◌+◌, ◌∷◌, ◌≡◌,
}
use we_term.Prelude.Attempt.{Attempt, done, fail}
use we_term.Prelude.Fields.{IsWord}
use we_term.Prelude.Int.{ltb_ℤ, pos}
use we_term.Prelude.Numerals.RoundTrip.{has_no}
use we_term.Prelude.Search.{has_prefix, strip_prefix}
use we_term.Prelude.Text.{append, decimal_onto, itoa}
use we_term.Prelude.Words.{is_space}
use we_term.Procmon.Collect.{Readings, collect_pids, file_name, gone, nothing_collected}
use we_term.Procmon.Collect.Counts.{collect_pids_exact, samples_of}
use we_term.Procmon.Container.{
  container_of, docker_here, docker_name, ends_docker, extract_container_id, find_id, first_chars,
  is_hex, named_or_short, resolve_container, take_hex,
}
use we_term.Procmon.Container.Ids.{resolve_container-named}
use we_term.Procmon.Procfs.{nth, read_proc_stat}
use we_term.Procmon.Procfs.RoundTrip.{read_proc_stat-stat_line, stat_line}
use we_term.Procmon.Prune.{Day, DirEntry, is_pruned, listed, midnight, parse_file_date, run_prune}
use we_term.Procmon.Prune.Loop.{IsOld, pruned_names, run_prune-IsOld}
use we_term.Procmon.Prune.Names.{parse_file_date-file_name}

-- a table of locks in which one open file at most holds the lock
abbrev pub holder_is : Option ℕ → ℕ → Bool
holder_is none n = false
holder_is (some m) n = eqb m n

abbrev pub try_hold : Option ℕ → ℕ → Attempt FlockError (Option ℕ)
try_hold none n = done (some n)
try_hold (some m) n = if eqb m n then done (some n) else fail would_block

abbrev pub give_up : Option ℕ → ℕ → Option ℕ
give_up none n = none
give_up (some m) n = if eqb m n then none else some m

abbrev pub one_lock : Kernel (Option ℕ)
one_lock = record { holds = holder_is; try_lock = try_hold; unlock = give_up }

-- the table that a grant leaves behind
abbrev table_of : Attempt FlockError (Option ℕ) → Option ℕ
table_of (fail e) = none
table_of (done k) = k

one_lock_granted :
    (k k' : Option ℕ) (fd : ℕ)
    → try_hold k fd ≡ done k'
    → (n : ℕ) → (holder_is k' n ≡ eqb fd n) × ((holder_is k n && not (eqb fd n)) ≡ false)
one_lock_granted none k' fd h n = rw (sym (ap table_of h)) (refl, refl)
one_lock_granted (some m) k' fd h n = elim (Bool-cases (eqb m fd)) [
  | inl e ↦ rw (sym (ap table_of (simp e at h))) (refl, ground arith)
  | inr e ↦ absurd (cc (simp e at h))
]

one_lock_unlocked :
    (k : Option ℕ) (fd n : ℕ) → holder_is (give_up k fd) n ≡ (not (eqb fd n) && holder_is k n)
one_lock_unlocked none fd n = ground arith
one_lock_unlocked (some m) fd n = elim (Bool-cases (eqb m fd)) [
  | inl e ↦ simp e (ground arith)
  | inr e ↦ simp e (ground arith)
]

pub one_lock_laws : KernelLaws one_lock
one_lock_laws = record { granted = one_lock_granted; unlocked = one_lock_unlocked }

-- a first instance acquires the lock with the open file 3, and a second one is turned away
abbrev nobody : System (Option ℕ)
nobody = record { table = none; running = λ n. false }

abbrev first_runs : System (Option ℕ)
first_runs = joins one_lock nobody 3 (some 3)

second_waits : Reach one_lock nobody first_runs
unfolding acquire lock_opened
second_waits =
    later (later here (acquires none (done 3) 3 (some 3) refl))
      (turned_away none (done 4) busy refl)

runs_alone_example : ◌≡◌ {A = ℕ} 3 3
runs_alone_example = runs_alone one_lock one_lock_laws (λ n. refl) second_waits 3 3 refl refl

-- the fields behind the name, of which the last two are the counters
abbrev stat_words : List String
stat_words =
    "S" ∷ "1" ∷ "7" ∷ "7" ∷ "0" ∷ "-1" ∷ "4194560" ∷ "23" ∷ "0" ∷ "0" ∷ "0" ∷ "250" ∷ "31" ∷ []

stat_words-IsWord : All IsWord stat_words
unfolding is_space
stat_words-IsWord = (
  (refl, refl),
  (
    (refl, refl),
    (
      (refl, refl),
      (
        (refl, refl),
        (
          (refl, refl),
          (
            (refl, refl),
            (
              (refl, refl),
              (
                (refl, refl),
                ((refl, refl), ((refl, refl), ((refl, refl), ((refl, refl), ((refl, refl), tt))))),
              ),
            ),
          ),
        ),
      ),
    ),
  ),
)

stat_words_plain : All (λ w. has_no 41 w ≡ true) stat_words
stat_words_plain = (
  refl,
  (
    refl,
    (refl, (refl, (refl, (refl, (refl, (refl, (refl, (refl, (refl, (refl, (refl, tt))))))))))),
  ),
)

read_proc_stat-stat_line_example :
    read_proc_stat (stat_line 7 "a) (b" stat_words)
    ≡ some (record { comm = "a) (b"; utime = 250; stime = 31 })
unfolding nth itoa decimal_onto append
read_proc_stat-stat_line_example =
    read_proc_stat-stat_line 7 "a) (b" stat_words 250 31 stat_words-IsWord stat_words_plain refl
      refl (omega arith) (omega arith)

-- the last day of a February of a leap year
abbrev leap_day : Day
leap_day = record { year = 2024; month = 2; day = 29 }

parse_file_date-file_name_example :
    (parse_file_date (file_name "db-1" leap_day) ≡ some leap_day)
    × (is_pruned 0 (record { name = file_name "db-1" leap_day; is_dir = false })
        ≡ ltb (midnight leap_day) 0)
parse_file_date-file_name_example = parse_file_date-file_name "db-1" leap_day 0 (omega arith, refl)

abbrev data_files : List DirEntry
data_files =
    record { name = "db-2023-01-31.jsonl"; is_dir = false }
    ∷ record { name = "notes.txt"; is_dir = false }
    ∷ []

run_prune-IsOld_example :
    All
      (IsOld (midnight leap_day) data_files)
      (run_prune (λ name. true) (pos 7) (midnight leap_day) (listed data_files)).1
    × (run_prune (λ name. true) (pos 7) (midnight leap_day) (listed data_files) ≡ (
        if ltb_ℤ (pos 7) (pos 1)
        then (2, [])
        else (0, pruned_names (λ name. true) (midnight leap_day) data_files)))
run_prune-IsOld_example = run_prune-IsOld (λ name. true) (pos 7) (midnight leap_day) data_files

-- process 1 can be sampled, no other exists
abbrev readings_of : ℕ → Readings
readings_of pid = record {
  stat = if eqb pid 1 then done (record { comm = "init"; utime = 5; stime = 6 }) else fail gone;
  rss = done 800;
  io = done none;
  cmdline = done "/sbin/init";
  cwd = done "/";
  container = fail gone;
}

collect_pids_exact_example :
    let c = collect_pids (λ s. true) readings_of (1 ∷ 2 ∷ []) nothing_collected in
    (c.written ≡ samples_of (λ s. true) readings_of (1 ∷ 2 ∷ []))
    × (c.ok ≡ length (samples_of (λ s. true) readings_of (1 ∷ 2 ∷ [])))
    × (c.ok + c.skipped ≡ 2)
collect_pids_exact_example = collect_pids_exact (λ s. true) readings_of (1 ∷ 2 ∷ [])

-- the cgroup of a process in a Docker container
abbrev docker_cgroup : String
docker_cgroup = "0::/docker/0123456789abcdef0123456789abcdef0123456789abcdef0123456789abcdef\n"

docker_short_id :
    container_of (λ path. none) "/var/lib/docker/containers" (extract_container_id docker_cgroup)
    ≡ some "0123456789ab"
unfolding container_of extract_container_id find_id docker_here strip_prefix take_hex is_hex
    ends_docker has_prefix named_or_short docker_name first_chars
docker_short_id = refl

resolve_container-named_example :
    (name : String) × (resolve_container
        (λ path. none)
        "/var/lib/docker/containers"
        (done docker_cgroup)
      ≡ done (some name))
resolve_container-named_example =
    resolve_container-named (λ path. none) "/var/lib/docker/containers" docker_cgroup
