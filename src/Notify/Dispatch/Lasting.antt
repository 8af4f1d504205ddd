-- ===== src/Notify/Dispatch/Lasting.antt =====
-- How long an alert has to last, over whole rounds from one state file to the next. A round stores
-- its pending map only with its state: not where a mail could not be sent or the file not written.
use we_term.Notify.Alerts.{extract_alerts}
use we_term.Notify.Config.{NotifyConfig}
use we_term.Notify.Dispatch.{
  StateFile, dispatch, file_after, file_with, load_state, missing, prepare_context, save_state,
}
use we_term.Notify.Dispatch.Resend.{file_of_round}
use we_term.Notify.Dispatch.Rounds.{Round, Rounds, next, round_outcome, start}
use we_term.Notify.Item.{State}
use we_term.Notify.Persistence.{apply_persistence, confirmed}
use we_term.Notify.Persistence.Cadence.{AlwaysIn, fires_every}
use we_term.Notify.Persistence.Filter.{has_key}
use we_term.Notify.Persistence.History.{
  PresentFor, Run, fires, fires-PresentFor, fires-cons, lookup-pending_after, pending_after,
}
use we_term.Prelude.{
  Bool, Bool-cases, List, Option, String, [], ap, arith, eqb, false, if◌then◌else◌, inl, inr,
  length, length-map, map, none, not, refl, some, suc, sym, true, ℕ, ◌%◌, ◌&&◌, ◌<◌, ◌∙◌, ◌∷◌, ◌≡◌,
}
use we_term.Prelude.Assoc.{lookup}
use we_term.Prelude.Int.{ltb_ℤ, pos, ℤ}
use we_term.Runner.Run.{run}

abbrev pub is_some {ℓ} : {A : Type ℓ} → Option A → Bool
is_some none = false
is_some (some a) = true

module _ {F : Type 0} (cfg : NotifyConfig) where
  -- the raw alerts of a round, and its time
  abbrev pub run_of : Round F → Run
  run_of r = record { items = extract_alerts (some r.report); now = r.now }

  -- the state file after the rounds, the newest first, where at first there is none
  unfoldable pub file_of_rounds : List (Round F) → StateFile
  file_of_rounds [] = missing
  file_of_rounds (r ∷ h) = file_of_round cfg (file_of_rounds h) r

  -- the round stores its state: Dispatch comes to SaveState, and that goes through
  abbrev pub stores : StateFile → Round F → Bool
  stores file r =
      is_some (round_outcome cfg (load_state file) r).saved && not (is_some r.world.save_fails)

  -- those of the rounds that stored their state
  unfoldable pub stored_rounds : List (Round F) → List (Round F)
  stored_rounds [] = []
  stored_rounds (r ∷ h) =
      let rest = stored_rounds h in if stores (file_of_rounds h) r then r ∷ rest else rest

  Rounds-step :
      (r : Round F) (h : List (Round F)) (file : StateFile) (saved : Option State)
      (fails : Option _)
      → (round_outcome cfg (load_state file) r).saved ≡ saved
      → Rounds cfg h (load_state file)
      → Rounds cfg
          (if is_some saved && not (is_some fails) then r ∷ h else h)
          (load_state (file_with fails saved file))
  unfolding file_with save_state load_state
  Rounds-step r h file none fails e rs = rs
  Rounds-step r h file (some t) none e rs = next r rs e
  Rounds-step r h file (some t) (some step) e rs = rs

  -- The rounds that stored nothing leave the state as it is.
  Rounds-stored :
      (h : List (Round F)) → Rounds cfg (stored_rounds h) (load_state (file_of_rounds h))
  unfolding stored_rounds file_of_rounds file_after load_state
  Rounds-stored [] = start
  Rounds-stored (r ∷ h) =
      Rounds-step r (stored_rounds h) (file_of_rounds h) _ r.world.save_fails refl (Rounds-stored h)

  saved-pending :
      (s t : State) (r : Round F)
      → (round_outcome cfg s r).saved ≡ some t
      → t.pending ≡ (prepare_context cfg s r.now r.report).next_pending
  unfolding round_outcome dispatch
  saved-pending s t r e = ground arith

  -- The pending map of a state is what the stored rounds make of an empty one.
  pending-Rounds :
      {h : List (Round F)} {s : State}
      → Rounds cfg h s
      → s.pending ≡ pending_after cfg.persistence.consecutive_runs (map run_of h)
  unfolding pending_after prepare_context
  pending-Rounds start = refl
  pending-Rounds (next {h} {s} {t} r rs e) =
      saved-pending s t r e
      ∙ ap
          (λ p.
            (apply_persistence (extract_alerts (some r.report)) p cfg.persistence.consecutive_runs
              r.now).next_pending)
          (pending-Rounds rs)

  filtered-Rounds :
      {h : List (Round F)} {s : State} (r : Round F) (k : String)
      → Rounds cfg h s
      → has_key k (prepare_context cfg s r.now r.report).filtered
        ≡ fires cfg.persistence.consecutive_runs k (map run_of (r ∷ h))
  unfolding fires prepare_context
  filtered-Rounds r k rs =
      ap
        (λ p.
          has_key k
            (apply_persistence (extract_alerts (some r.report)) p cfg.persistence.consecutive_runs
              r.now).filtered)
        (pending-Rounds rs)

-- Whatever the rounds since a start without a state file were, also such that could not send their
-- mail or not store their state: for N greater than 1, an alert is let through in a round only if
-- its key is among the raw alerts of this round and of the last N-1 rounds that stored their state.
pub filtered-PresentFor :
    {F : Type 0} (cfg : NotifyConfig) (n : ℕ) (k : String) (h : List (Round F)) (r : Round F)
    → cfg.persistence.consecutive_runs ≡ pos n
    → 1 < n
    → has_key k (prepare_context cfg (load_state (file_of_rounds cfg h)) r.now r.report).filtered
      ≡ true
    → PresentFor n k (map (run_of cfg) (r ∷ stored_rounds cfg h))
filtered-PresentFor cfg n k h r e on f =
    fires-PresentFor n k (map (run_of cfg) (r ∷ stored_rounds cfg h)) on (
      ap (λ m. fires m k (map (run_of cfg) (r ∷ stored_rounds cfg h))) (sym e)
      ∙ sym (filtered-Rounds cfg r k (Rounds-stored cfg h))
      ∙ f)

-- A raw alert is pending behind a run exactly if the run did not let it through.
pending_unless_fires :
    (n : ℤ) (k : String) (run : Run) (older : List Run)
    → ltb_ℤ (pos 1) n ≡ true
    → has_key k run.items ≡ true
    → is_some (lookup k (pending_after n (run ∷ older))) ≡ not (fires n k (run ∷ older))
pending_unless_fires n k run older on here =
    rw (lookup-pending_after n on k run older, fires-cons n on k run older, here)
      (elim (Bool-cases (confirmed (pending_after n older) n run.now k)) [
        | inl c ↦ simp c refl
        | inr c ↦ simp c refl
      ])

-- Since a start without a state file, if every round so far stored its state, and the alert is a
-- raw one of every round, all within 24 hours: it is let through in exactly those rounds whose
-- number is a multiple of N, for N greater than 1, and in the rounds between, and only in those,
-- the round leaves it pending.
pub filtered_every :
    {F : Type 0} (cfg : NotifyConfig) (n t0 : ℕ) (k : String) {h : List (Round F)} {s : State}
    (r : Round F)
    → cfg.persistence.consecutive_runs ≡ pos n
    → 1 < n
    → Rounds cfg h s
    → AlwaysIn t0 k (map (run_of cfg) (r ∷ h))
    → (has_key k (prepare_context cfg s r.now r.report).filtered ≡ eqb (length (r ∷ h) % n) 0)
      × (is_some (lookup k (prepare_context cfg s r.now r.report).next_pending)
          ≡ not (eqb (length (r ∷ h) % n) 0))
unfolding prepare_context
filtered_every cfg n t0 k {h} {s} r e on rs a =
    let runs = map (run_of cfg) h in
    let every : fires (pos n) k (run_of cfg r ∷ runs) ≡ eqb (length (r ∷ h) % n) 0 =
      fires_every n t0 k (run_of cfg r) runs on a
      ∙ ap (λ l. eqb (suc l % n) 0) (length-map (run_of cfg) h) in
    (
      filtered-Rounds cfg r k rs ∙ ap (λ m. fires m k (run_of cfg r ∷ runs)) e ∙ every,
      ap
            (λ p. is_some (
              lookup k
                (apply_persistence (extract_alerts (some r.report)) p
                  cfg.persistence.consecutive_runs r.now).next_pending))
            (pending-Rounds cfg rs)
          ∙ ap
              (λ m. is_some (
                lookup k
                  (apply_persistence (extract_alerts (some r.report)) (pending_after m runs) m
                    r.now).next_pending))
              e
          ∙ pending_of_run
          ∙ ap not every,
    )
  where
    pending_of_run :
        is_some (
          lookup k
            (apply_persistence
              (extract_alerts (some r.report))
              (pending_after (pos n) (map (run_of cfg) h))
              (pos n)
              r.now).next_pending)
        ≡ not (fires (pos n) k (run_of cfg r ∷ map (run_of cfg) h))
    pending_of_run =
        unfold pending_after in
        pending_unless_fires (pos n) k (run_of cfg r) (map (run_of cfg) h) (ground arith) a.0
