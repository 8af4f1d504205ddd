-- ===== src/Notify/Dispatch/Resend.antt =====
-- The cooldown across rounds.
use we_term.Model.Report.{InspectReport}
use we_term.Notify.Clock.{cooldown_of, sub_time}
use we_term.Notify.Config.{NotifyConfig}
use we_term.Notify.Dispatch.{
  Outcome, PrepContext, SaveStep, StateFile, World, alert_mail, alerted_state, dispatch, file_after,
  file_with, load_state, perform, prepare_context, prepare_report, save_state, send_then_save,
}
use we_term.Notify.Dispatch.Actions.{choose_alert_cooldown, undelivered_keeps_last}
use we_term.Notify.Dispatch.Rounds.{Round, round_action, round_outcome}
use we_term.Notify.Item.{State, status_alert}
use we_term.Notify.Signature.{signature}
use we_term.Notify.Trigger.{Action, no_action, send_alert, send_recovery}
use we_term.Prelude.{
  Bool-cases, List, Option, String, [], ap, arith, eq_iff, false, inl, inr, none, refl, some, true,
  ℕ, ◌∙◌, ◌∷◌, ◌≡◌,
}
use we_term.Prelude.Int.{leb_ℤ}

-- the state file after a round
abbrev pub file_of_round : {F : Type 0} → NotifyConfig → StateFile → Round F → StateFile
file_of_round cfg file r = file_after r.world (round_outcome cfg (load_state file) r) file

-- Rounds from a state file that deliver no mail, also because it could not be sent, and whether or
-- not they can store their state; the newest first.
pub data QuietRounds {F : Type 0} (cfg : NotifyConfig) (file : StateFile)
    : List (Round F) → StateFile → Type 0 where
  stop : QuietRounds cfg file [] file
  more :
      {h : List (Round F)} {file' : StateFile} (r : Round F)
      → QuietRounds cfg file h file'
      → (round_outcome cfg (load_state file') r).delivered ≡ false
      → QuietRounds cfg file (r ∷ h) (file_of_round cfg file' r)

abbrev SameLast : State → State → Type 0
SameLast s t =
    (t.last_sent_at ≡ s.last_sent_at)
    × (t.last_signature ≡ s.last_signature)
    × (t.last_status ≡ s.last_status)

prev-prepare_context :
    {F : Type 0} (cfg : NotifyConfig) (s : State) (now : ℕ) (report : InspectReport F)
    → (prepare_context cfg s now report).prev ≡ s
unfolding prepare_context
prev-prepare_context cfg s now report = refl

quiet_round-SameLast :
    {F : Type 0} (cfg : NotifyConfig) (t u : State) (r : Round F)
    → (round_outcome cfg t r).delivered ≡ false
    → (round_outcome cfg t r).saved ≡ some u
    → SameLast t u
unfolding round_outcome prepare_context
quiet_round-SameLast cfg t u r d e =
    undelivered_keeps_last r.world (prepare_context cfg t r.now r.report) cfg
      (prepare_report cfg t r.now r.report) r.html_path r.html_read u d e

loaded_with :
    (fails : Option SaveStep) (saved : Option State) (file : StateFile) (P : State → Type 0)
    → P (load_state file)
    → ((u : State) → saved ≡ some u → P u)
    → P (load_state (file_with fails saved file))
unfolding save_state load_state file_with
loaded_with fails none file P old new = old
loaded_with none (some u) file P old new = new u refl
loaded_with (some step) (some u) file P old new = old

-- What is in the state file after an outcome is what was there before or what was saved.
pub loaded_after :
    (w : World) (o : Outcome) (file : StateFile) (P : State → Type 0)
    → P (load_state file)
    → ((u : State) → o.saved ≡ some u → P u)
    → P (load_state (file_after w o file))
unfolding file_after
loaded_after w o file P old new = loaded_with w.save_fails o.saved file P old new

pub loaded_saved :
    (w : World) (o : Outcome) (file : StateFile) (t : State)
    → o.saved ≡ some t
    → w.save_fails ≡ none
    → load_state (file_after w o file) ≡ t
unfolding file_after file_with save_state load_state
loaded_saved w o file t e f = rw (e, f) refl

QuietRounds-SameLast :
    {F : Type 0} {cfg : NotifyConfig} {file file' : StateFile} {h : List (Round F)}
    → QuietRounds cfg file h file'
    → SameLast (load_state file) (load_state file')
QuietRounds-SameLast stop = (refl, refl, refl)
QuietRounds-SameLast {cfg = cfg} (more {file' = file'} r q d) =
    let all = QuietRounds-SameLast q in
    let one : SameLast (load_state file') (load_state (file_of_round cfg file' r)) =
      loaded_after r.world _ file' (SameLast (load_state file')) (refl, refl, refl)
        (λ u e. quiet_round-SameLast cfg (load_state file') u r d e) in
    (one.0 ∙ all.0, one.1 ∙ all.1, one.2 ∙ all.2)

saved-perform :
    {F : Type 0} (action : Action) (w : World) (ctx : PrepContext) (cfg : NotifyConfig)
    (report : InspectReport F) (html path : String)
    → action ≡ send_alert
    → (perform action w ctx cfg report html path).delivered ≡ true
    → (perform action w ctx cfg report html path).saved ≡ some (alerted_state w ctx)
unfolding perform send_then_save
saved-perform no_action w ctx cfg report html path a d = absurd (cc a)
saved-perform send_recovery w ctx cfg report html path a d = absurd (cc a)
saved-perform send_alert w ctx cfg report html path a d =
    elim (Bool-cases (w.deliver cfg (alert_mail report ctx html path))) [
      | inl e ↦ simp e refl
      | inr e ↦ absurd (cc (simp e at d))
    ]

saved-round :
    {F : Type 0} (cfg : NotifyConfig) (t : State) (r : Round F)
    → round_action cfg t r ≡ send_alert
    → (round_outcome cfg t r).delivered ≡ true
    → (round_outcome cfg t r).saved
      ≡ some (alerted_state r.world (prepare_context cfg t r.now r.report))
unfolding round_outcome dispatch
saved-round cfg t r a d =
    saved-perform _ r.world (prepare_context cfg t r.now r.report) cfg
      (prepare_report cfg t r.now r.report) _ r.html_path a d

-- After a round that delivered an alert mail and stored its state, and any number of rounds that
-- delivered no mail, the next alert mail with the same signature is chosen only once the cooldown
-- has passed since that round.
pub resend_waits :
    {F : Type 0} {cfg : NotifyConfig} {h : List (Round F)} (file : StateFile) {file' : StateFile}
    (first r : Round F)
    → round_action cfg (load_state file) first ≡ send_alert
    → (round_outcome cfg (load_state file) first).delivered ≡ true
    → first.world.save_fails ≡ none
    → QuietRounds cfg (file_of_round cfg file first) h file'
    → round_action cfg (load_state file') r ≡ send_alert
    → signature r.world.digest (prepare_context cfg (load_state file') r.now r.report).filtered
      ≡ signature first.world.digest
          (prepare_context cfg (load_state file) first.now first.report).filtered
    → leb_ℤ (cooldown_of cfg.trigger.min_interval_minutes) (sub_time r.now first.now) ≡ true
unfolding prepare_context
resend_waits {cfg = cfg} file {file'} first r a d f q b same =
    let sent =
      loaded_saved first.world (round_outcome cfg (load_state file) first) file _
        (saved-round cfg (load_state file) first a d) f in
    let last = QuietRounds-SameLast q in
    let at_first : (load_state file').last_sent_at ≡ first.now =
      last.0 ∙ ap (λ t. t.last_sent_at) sent in
    ground (
      arith,
      last.1 ∙ ap (λ t. t.last_signature) sent,
      last.2 ∙ ap (λ t. t.last_status) sent,
      same,
      (choose_alert_cooldown r.world (prepare_context cfg (load_state file') r.now r.report) cfg
          b).1,
      eq_iff (load_state file').last_status status_alert,
      ap (sub_time r.now) at_first,
    )
