-- ===== src/Procmon/Collect.antt =====
-- procmon/cmd/procmon/collect.go: sampling the processes.
pub mod Counts
use we_term.Prelude.{
  Bool, List, Option, String, [], false, if◌then◌else◌, map, none, some, true, ℕ, ◌%◌, ◌++◌, ◌+◌,
  ◌/◌, ◌==◌, ◌^◌, ◌∷◌,
}
use we_term.Prelude.Attempt.{Attempt, done, fail, ◌>>=◌}
use we_term.Prelude.Text.{append, concat, digit}
use we_term.Procmon.Procfs.{ProcIo, ProcStat}
use we_term.Procmon.Prune.{Day}

-- How a read of a file of a process failed, as far as the sampler looks at it: isGone, and a
-- permission error, which the readers of io, cwd and cgroup turn into nothing.
pub data ReadError : Type 0 where
  gone : ReadError
  denied : ReadError
  unreadable : ReadError

-- the fields of `record` that a sample fills in
pub record Sample : Type 0 where
  pub pid : ℕ
  pub comm : String
  pub cmdline : String
  pub cwd : Option String
  pub container : Option String
  pub cpu_j : ℕ
  pub rss_kb : ℕ
  pub io_r : Option ℕ
  pub io_w : Option ℕ

-- What the readers of procfs.go and resolveContainer give for one process. `io` is `none` where the
-- file cannot be opened for lack of permission.
pub record Readings : Type 0 where
  pub stat : Attempt ReadError ProcStat
  pub rss : Attempt ReadError ℕ
  pub io : Attempt ReadError (Option ProcIo)
  pub cmdline : Attempt ReadError String
  pub cwd : Attempt ReadError String
  pub container : Attempt ReadError String

unfoldable pub is_gone : ReadError → Bool
is_gone e = elim e [ gone ↦ true | _ ↦ false ]

-- v, err := read(); if err != nil && !isGone(err) { return }: the zero value where the process is
-- gone by now
unfoldable pub unless_gone {ℓ} : {A : Type ℓ} → A → Attempt ReadError A → Attempt ReadError A
unless_gone zero_value (done a) = done a
unless_gone zero_value (fail e) = if is_gone e then done zero_value else fail e

-- a best-effort text: absent where it is empty or could not be read
unfoldable pub best_effort : Attempt ReadError String → Option String
best_effort (fail e) = none
best_effort (done s) = if s == "" then none else some s

abbrev option_map : (ProcIo → ℕ) → Option ProcIo → Option ℕ
option_map f none = none
option_map f (some io) = some (f io)

-- the rest of samplePid behind the reads that can end it
unfoldable pub sample_of : ℕ → Readings → ProcStat → ℕ → Option ProcIo → String → Sample
sample_of pid r stat rss io cmdline = record {
  pid = pid;
  comm = stat.comm;
  cmdline = cmdline;
  cwd = best_effort r.cwd;
  container = best_effort r.container;
  cpu_j = (stat.utime + stat.stime) % 2 ^ 64;
  rss_kb = rss;
  io_r = option_map (λ i. i.read_bytes) io;
  io_w = option_map (λ i. i.write_bytes) io;
}

-- samplePid
unfoldable pub sample_pid : ℕ → Readings → Attempt ReadError Sample
sample_pid pid r = do
  stat ← r.stat
  rss ← unless_gone 0 r.rss
  io ← unless_gone none r.io
  cmdline ← unless_gone "" r.cmdline
  done (sample_of pid r stat rss io cmdline)

-- what the loop of runCollect has done: the samples written, in order, and both counters
pub record Collected : Type 0 where
  pub written : List Sample
  pub ok : ℕ
  pub skipped : ℕ

-- the body of the loop; `encodes` is whether the encoder writes the sample
unfoldable pub collect_one : (Sample → Bool) → Attempt ReadError Sample → Collected → Collected
collect_one encodes (fail e) c = record c { skipped = c.skipped + 1 }
collect_one encodes (done s) c =
    if encodes s
    then record c { written = c.written ++ (s ∷ []); ok = c.ok + 1 }
    else record c { skipped = c.skipped + 1 }

-- the loop of runCollect over the processes
unfoldable pub collect_pids : (Sample → Bool) → (ℕ → Readings) → List ℕ → Collected → Collected
collect_pids encodes readings [] c = c
collect_pids encodes readings (pid ∷ pids) c =
    collect_pids encodes readings pids (collect_one encodes (sample_pid pid (readings pid)) c)

unfoldable pub nothing_collected : Collected
nothing_collected = record { written = []; ok = 0; skipped = 0 }

-- now.Format("2006-01-02"), for a year of four digits
unfoldable pub show_day : Day → String
show_day t = concat (
    digit (t.year / 1000)
    ∷ digit (t.year / 100 % 10)
    ∷ digit (t.year / 10 % 10)
    ∷ digit (t.year % 10)
    ∷ "-"
    ∷ digit (t.month / 10)
    ∷ digit (t.month % 10)
    ∷ "-"
    ∷ digit (t.day / 10)
    ∷ digit (t.day % 10)
    ∷ [])

-- the name of the file that runCollect appends to
unfoldable pub file_name : String → Day → String
file_name host t = append host (append "-" (append (show_day t) ".jsonl"))
