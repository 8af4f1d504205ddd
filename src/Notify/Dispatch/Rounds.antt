-- ===== src/Notify/Dispatch/Rounds.antt =====
-- Whole rounds, from the state file of one to that of the next.
use we_term.Model.Report.{InspectReport}
use we_term.Notify.Alerts.{extract_alerts}
use we_term.Notify.Config.{NotifyConfig}
use we_term.Notify.Dispatch.{
  Outcome, World, choose_action, dispatch, prepare_context, prepare_report,
}
use we_term.Notify.Dispatch.Actions.{choose_recovery_exact}
use we_term.Notify.Item.{State, cold_state, status_alert}
use we_term.Notify.Persistence.{update_recovery_streak}
use we_term.Notify.Trigger.{Action, send_recovery}
use we_term.Prelude.{
  Bool, Bool-cases, List, Option, String, [], arith, inl, inr, is_empty, refl, some, suc, true,
  zero, ℕ, ◌&&◌, ◌==◌, ◌∙◌, ◌∷◌, ◌≡◌, ◌≤◌, ◌⊎◌,
}
use we_term.Prelude.Int.{leb_ℤ, pos, ℤ, ◌+ℤ◌}

-- What a round meets: the world, the time, the report of the collectors, and the HTML report.
pub record Round (F : Type 0) : Type 0 where
  pub world : World
  pub now : ℕ
  pub report : InspectReport F
  pub html_path : String
  pub html_read : Option String

module _ {F : Type 0} where
  -- The round works, with the notification on: Prepare and then Dispatch.
  unfoldable pub round_outcome : NotifyConfig → State → Round F → Outcome
  round_outcome cfg prev r =
      dispatch r.world (some (prepare_context cfg prev r.now r.report)) cfg
        (prepare_report cfg prev r.now r.report) r.html_path r.html_read

  abbrev pub round_action : NotifyConfig → State → Round F → Action
  round_action cfg prev r = choose_action r.world (prepare_context cfg prev r.now r.report) cfg

  -- The round has no warning at all.
  abbrev pub calm : Round F → Bool
  calm r = is_empty (extract_alerts (some r.report))

  abbrev pub CalmFor : ℕ → List (Round F) → Type 0
  CalmFor zero h = Unit
  CalmFor (suc m) [] = ⊥
  CalmFor (suc m) (r ∷ h) = (calm r ≡ true) × CalmFor m h

-- The states that rounds lead to from a cold start, each storing its state; the newest round first.
pub data Rounds {F : Type 0} (cfg : NotifyConfig) : List (Round F) → State → Type 0 where
  start : Rounds cfg [] cold_state
  next :
      {h : List (Round F)} {s t : State} (r : Round F)
      → Rounds cfg h s
      → (round_outcome cfg s r).saved ≡ some t
      → Rounds cfg (r ∷ h) t

-- The streak of a state counts calm rounds up to the newest.
record Streak {F : Type 0} (h : List (Round F)) (s : State) : Type 0 where
  runs : ℕ
  streak_is : s.recovery_streak ≡ pos runs
  calm_for : CalmFor runs h

module _ {F : Type 0} (cfg : NotifyConfig) (h : List (Round F)) (s : State) (r : Round F) where
  -- The streak that Prepare computes.
  new_streak-Streak :
      Streak h s
      → (runs : ℕ) × ((prepare_context cfg s r.now r.report).new_streak ≡ pos runs)
        × CalmFor runs (r ∷ h)
  unfolding prepare_context update_recovery_streak ◌+ℤ◌
  new_streak-Streak k = elim (Bool-cases (s.last_status == status_alert && calm r)) [
    | inl b ↦ (suc k.runs, ground (arith, k.streak_is), (ground arith, k.calm_for))
    | inr b ↦ (0, ground arith, tt)
  ]

  -- What a round stores is the streak of Prepare, or zero after a mail.
  saved-streak :
      (t : State)
      → (round_outcome cfg s r).saved ≡ some t
      → (t.recovery_streak ≡ (prepare_context cfg s r.now r.report).new_streak)
        ⊎ (t.recovery_streak ≡ pos 0)
  unfolding round_outcome dispatch
  saved-streak t e = ground arith

CalmFor-le : {F : Type 0} (m p : ℕ) (h : List (Round F)) → p ≤ m → CalmFor m h → CalmFor p h
CalmFor-le m zero h l c = tt
CalmFor-le zero (suc p) h l c = absurd (omega arith)
CalmFor-le (suc m) (suc p) [] l c = absurd c
CalmFor-le (suc m) (suc p) (r ∷ h) l c = (c.0, CalmFor-le m p h (omega arith) c.1)

module _ {F : Type 0} (cfg : NotifyConfig) where
  next-Streak :
      (h : List (Round F)) (s t : State) (r : Round F)
      → Streak h s
      → (round_outcome cfg s r).saved ≡ some t
      → Streak (r ∷ h) t
  next-Streak h s t r k e = elim (saved-streak cfg h s r t e) [
    | inl same ↦
        let n = new_streak-Streak cfg h s r k in
        record { runs = n.0; streak_is = same ∙ n.1; calm_for = n.2 }
    | inr reset ↦ record { runs = 0; streak_is = reset; calm_for = tt }
  ]

  Rounds-Streak : {h : List (Round F)} {s : State} → Rounds cfg h s → Streak h s
  Rounds-Streak start = record { runs = 0; streak_is = refl; calm_for = tt }
  Rounds-Streak (next {h} {s} {t} r rs e) = next-Streak h s t r (Rounds-Streak rs) e

  enough_calm :
      (m n : ℕ) (c z : ℤ) (h : List (Round F))
      → z ≡ pos m
      → c ≡ pos n
      → leb_ℤ c z ≡ true
      → CalmFor m h
      → CalmFor n h
  enough_calm m n c z h e f l k = CalmFor-le m n h (ground arith) k

-- Whatever rounds stored their states since a cold start, a recovery mail is chosen only if the
-- last N rounds, the present one included, had no warning at all.
pub recovery_needs_calm :
    {F : Type 0} (cfg : NotifyConfig) (n : ℕ) {h : List (Round F)} {s : State} (r : Round F)
    → cfg.persistence.consecutive_runs ≡ pos n
    → Rounds cfg h s
    → round_action cfg s r ≡ send_recovery
    → CalmFor n (r ∷ h)
recovery_needs_calm cfg n {h} {s} r e rs a =
    let k = new_streak-Streak cfg h s r (Rounds-Streak cfg rs) in
    enough_calm cfg k.0 n cfg.persistence.consecutive_runs
      (prepare_context cfg s r.now r.report).new_streak (r ∷ h) k.1 e
      ((choose_recovery_exact r.world (prepare_context cfg s r.now r.report) cfg).0 a).4 k.2
