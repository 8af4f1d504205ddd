-- ===== src/Procmon/Collect/Counts.antt =====
-- procmon/cmd/procmon/collect.go: every process is counted once, and every sample is written.
use mathlib.Core.List.{append-nil, append_assoc}
use we_term.Prelude.{
  Bool, Bool-cases, List, [], ap, arith, if◌then◌else◌, inl, inr, length, refl, sym, ℕ, ◌++◌, ◌+◌,
  ◌∙◌, ◌∷◌, ◌≡◌,
}
use we_term.Prelude.Attempt.{Attempt, done, fail}
use we_term.Procmon.Collect.{
  Collected, ReadError, Readings, Sample, collect_one, collect_pids, nothing_collected, sample_pid,
}

module _ (encodes : Sample → Bool) where
  -- what a process contributes to the file
  abbrev pub written_of : Attempt ReadError Sample → List Sample
  written_of (fail e) = []
  written_of (done s) = if encodes s then s ∷ [] else []

  -- what the processes contribute, in order
  abbrev pub samples_of : (ℕ → Readings) → List ℕ → List Sample
  samples_of readings [] = []
  samples_of readings (pid ∷ pids) =
      written_of (sample_pid pid (readings pid)) ++ samples_of readings pids

  collect_one_lem :
      (a : Attempt ReadError Sample) (c : Collected)
      → ((collect_one encodes a c).written ≡ c.written ++ written_of a)
        × ((collect_one encodes a c).ok ≡ c.ok + length (written_of a))
        × ((collect_one encodes a c).ok + (collect_one encodes a c).skipped ≡ c.ok + c.skipped + 1)
  unfolding collect_one
  collect_one_lem (fail e) c = (sym (append-nil c.written), omega arith, omega arith)
  collect_one_lem (done s) c = elim (Bool-cases (encodes s)) [
    | inl e ↦ simp e (refl, omega arith, omega arith)
    | inr e ↦ simp e (sym (append-nil c.written), omega arith, omega arith)
  ]

  length-append : (xs ys : List Sample) → length (xs ++ ys) ≡ length xs + length ys
  length-append [] ys = omega arith
  length-append (x ∷ xs) ys = omega (arith, length-append xs ys)

  collect_pids_lem :
      (readings : ℕ → Readings) (pids : List ℕ) (c : Collected)
      → ((collect_pids encodes readings pids c).written ≡ c.written ++ samples_of readings pids)
        × ((collect_pids encodes readings pids c).ok ≡ c.ok + length (samples_of readings pids))
        × ((collect_pids encodes readings pids c).ok
              + (collect_pids encodes readings pids c).skipped
            ≡ c.ok + c.skipped + length pids)
  unfolding collect_pids
  collect_pids_lem readings [] c = (sym (append-nil c.written), omega arith, omega arith)
  collect_pids_lem readings (pid ∷ pids) c =
      let a = sample_pid pid (readings pid) in
      let one = collect_one_lem a c in
      let later = collect_pids_lem readings pids (collect_one encodes a c) in
      (
        later.0
            ∙ ap (λ w. w ++ samples_of readings pids) one.0
            ∙ append_assoc c.written (written_of a) (samples_of readings pids),
        omega (arith, later.1, one.1, length-append (written_of a) (samples_of readings pids)),
        omega (arith, later.2, one.2),
      )

  -- The loop of runCollect writes the samples of the processes that could be sampled and encoded,
  -- in the order of the processes; it counts each of these once as collected, and all other
  -- processes once as skipped.
  pub collect_pids_exact :
      (readings : ℕ → Readings) (pids : List ℕ)
      → let c = collect_pids encodes readings pids nothing_collected in
        (c.written ≡ samples_of readings pids)
        × (c.ok ≡ length (samples_of readings pids))
        × (c.ok + c.skipped ≡ length pids)
  unfolding nothing_collected
  collect_pids_exact readings pids =
      let whole = collect_pids_lem readings pids nothing_collected in
      (whole.0, omega (arith, whole.1), omega (arith, whole.2))
