-- ===== src/Main/Ends.antt =====
-- inspect/main.go: what a run of the program leaves behind, on every path through main.
use we_term.Config.Hosts.{validate_hosts}
use we_term.Config.Load.{load}
use we_term.Config.Settings.{Config}
use we_term.Lock.{Kernel, LockError, busy, failed}
use we_term.Main.{
  Ended, Session, after_load, after_prepare, after_run, after_write, closed, guarded, inspect, main,
  stopped, validated, with_lock,
}
use we_term.Model.Float.{FloatOps}
use we_term.Model.Report.{InspectReport}
use we_term.Notify.Config.{NotifyConfig}
use we_term.Notify.Dispatch.{PrepContext, StateFile}
use we_term.Output.{Reports}
use we_term.Prelude.{Bool-cases, Option, String, eqb, false, inl, inr, none, refl, some, ℕ, ◌≡◌}
use we_term.Prelude.Attempt.{Attempt, done, fail}

module _ {F K : Type 0} (fl : FloatOps F) (s : Session F) (state : StateFile) (files : Reports)
    (kernel : Kernel K) (k : K) (P : Ended → Type 0) where
  with_lock-ind :
      (ended : Ended) (lock : Attempt LockError (ℕ × K))
      → P (stopped s state files 0 files)
      → P ended
      → P (with_lock s state files kernel k ended lock).0
  unfolding with_lock
  with_lock-ind ended (done (fd, k')) z p = p
  with_lock-ind ended (fail busy) z p = z
  with_lock-ind ended (fail (failed e)) z p = p

  guarded-ind :
      (ended : Ended) (path : Attempt String String)
      → P (stopped s state files 0 files)
      → P ended
      → P (guarded s state files kernel k ended path).0
  unfolding guarded
  guarded-ind ended (fail e) z p = p
  guarded-ind ended (done path) z p = with_lock-ind ended _ z p

  validated-ind :
      (ended : Ended) (why : Option String)
      → P (stopped s state files 0 files)
      → P (stopped s state files 1 files)
      → P ended
      → P (validated s state files kernel k ended why).0
  unfolding validated
  validated-ind ended (some e) z o p = o
  validated-ind ended none z o p = guarded-ind ended _ z p

  -- What holds of an end before anything is stored or sent, and of every end behind the lock, holds
  -- of every end of main.
  pub main-ind :
      P (stopped s state files 0 files)
      → P (stopped s state files 1 files)
      → ((cfg : Config F) → P (inspect s state files fl cfg))
      → P (main s state files kernel k fl).0
  unfolding main after_load
  main-ind z o p = elim (Bool-cases s.shows_version) [
    | inl h ↦ simp h z
    | inr h ↦ simp h (after_load-ind (load ⦃fl = fl⦄ s.env s.output_dir))
  ]
    where
      after_load-ind :
          (loading : Attempt _ (Config F)) → P (after_load s state files kernel k fl loading).0
      after_load-ind (fail e) = o
      after_load-ind (done cfg) =
          validated-ind (inspect s state files fl cfg) (validate_hosts cfg.all_hosts) z o (p cfg)

module _ {F : Type 0} (s : Session F) (state : StateFile) (files : Reports) where
  -- an end that is not a success stores and sends nothing
  abbrev IsIdle : Ended → Type 0
  IsIdle e = eqb e.exit_code 0 ≡ false → (e.state ≡ state) × (e.attempted ≡ none)

  after_write-IsIdle :
      (c : Option NotifyConfig) (ctx : Option PrepContext) (report : InspectReport F)
      (written : Reports × Attempt String String)
      → IsIdle (after_write s state files c ctx report written)
  unfolding after_write closed
  after_write-IsIdle c ctx report (files', fail e) = λ h. (refl, refl)
  after_write-IsIdle c ctx report (files', done path) = λ h. absurd (cc h)

  after_run-IsIdle :
      (dir : String) (c : Option NotifyConfig) (result : Attempt String (InspectReport F))
      → IsIdle (after_run s state files dir c result)
  unfolding after_run after_prepare
  after_run-IsIdle dir c (fail e) = λ h. (refl, refl)
  after_run-IsIdle dir c (done report) = after_write-IsIdle c _ _ _

-- When main ends with an error, whether before the run, in it or in writing the reports, the stored
-- state of the notifications is as it was, and no mail was attempted.
pub main-IsIdle :
    {F K : Type 0} (fl : FloatOps F) (s : Session F) (state : StateFile) (files : Reports)
    (kernel : Kernel K) (k : K)
    → eqb (main s state files kernel k fl).0.exit_code 0 ≡ false
    → ((main s state files kernel k fl).0.state ≡ state)
      × ((main s state files kernel k fl).0.attempted ≡ none)
unfolding inspect
main-IsIdle fl s state files kernel k =
    main-ind fl s state files kernel k (IsIdle s state files) (λ h. (refl, refl))
      (λ h. (refl, refl)) (λ cfg. after_run-IsIdle s state files cfg.output_dir _ _)
