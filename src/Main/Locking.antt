-- ===== src/Main/Locking.antt =====
-- inspect/main.go: the lock around a run of the program.
use we_term.Config.Hosts.{validate_hosts}
use we_term.Config.Load.{load}
use we_term.Config.Settings.{Config}
use we_term.Lock.{Kernel, acquire, lock_opened, would_block}
use we_term.Main.{
  Ended, Session, after_load, config_path, guarded, inspect, main, stopped, validated, with_lock,
}
use we_term.Model.Float.{FloatOps}
use we_term.Notify.Dispatch.{StateFile}
use we_term.Output.{Reports}
use we_term.Prelude.{Bool-cases, Option, String, inl, inr, none, refl, some, ℕ, ◌≡◌}
use we_term.Prelude.Attempt.{Attempt, done, fail}

module _ {F K : Type 0} (fl : FloatOps F) (s : Session F) (state : StateFile) (files : Reports)
    (kernel : Kernel K) (k : K) (P : Ended × K → Type 0) where
  validated-both :
      (ended : Ended) (why : Option String)
      → P (stopped s state files 1 files, k)
      → P (guarded s state files kernel k ended (config_path s.env s.home))
      → P (validated s state files kernel k ended why)
  unfolding validated
  validated-both ended (some e) o p = o
  validated-both ended none o p = p

  -- Main ends before the lock with the table as it was, or by way of the lock.
  main-both :
      P (stopped s state files 0 files, k)
      → P (stopped s state files 1 files, k)
      → ((ended : Ended) → P (guarded s state files kernel k ended (config_path s.env s.home)))
      → P (main s state files kernel k fl)
  unfolding main after_load
  main-both z o p = elim (Bool-cases s.shows_version) [
    | inl h ↦ simp h z
    | inr h ↦ simp h (after_load-both (load ⦃fl = fl⦄ s.env s.output_dir))
  ]
    where
      after_load-both :
          (loading : Attempt _ (Config F)) → P (after_load s state files kernel k fl loading)
      after_load-both (fail e) = o
      after_load-both (done cfg) =
          validated-both (inspect s state files fl cfg) (validate_hosts cfg.all_hosts) o
            (p (inspect s state files fl cfg))

module _ {F K : Type 0} (s : Session F) (state : StateFile) (files : Reports) (kernel : Kernel K)
    (k : K) where
  -- a run that is turned away leaves all as it was
  abbrev IsUntouched : Ended × K → Type 0
  IsUntouched r = (r.0.state ≡ state) × (r.0.reports ≡ files) × (r.0.attempted ≡ none) × (r.1 ≡ k)

  guarded_busy :
      (ended : Ended) (path : Attempt String String) (file : String) (fd : ℕ)
      → path ≡ done file
      → s.lock_dir_error ≡ none
      → s.lock_file ≡ done fd
      → kernel.try_lock k fd ≡ fail would_block
      → IsUntouched (guarded s state files kernel k ended path)
  unfolding guarded acquire lock_opened with_lock
  guarded_busy ended path file fd p d f b = rw (p, d, f, b) (refl, refl, refl, refl)

-- While another instance holds the lock, so that flock answers that it would block, a run changes
-- nothing: not the stored state, not the report files and not the table of locks, and it attempts no
-- mail, whatever the settings are and whatever the collectors would have answered.
pub main_busy :
    {F K : Type 0} (fl : FloatOps F) (s : Session F) (state : StateFile) (files : Reports)
    (kernel : Kernel K) (k : K) (file : String) (fd : ℕ)
    → config_path s.env s.home ≡ done file
    → s.lock_dir_error ≡ none
    → s.lock_file ≡ done fd
    → kernel.try_lock k fd ≡ fail would_block
    → ((main s state files kernel k fl).0.state ≡ state)
      × ((main s state files kernel k fl).0.reports ≡ files)
      × ((main s state files kernel k fl).0.attempted ≡ none)
      × ((main s state files kernel k fl).1 ≡ k)
main_busy fl s state files kernel k file fd p d f b =
    main-both fl s state files kernel k (IsUntouched s state files kernel k)
      (refl, refl, refl, refl) (refl, refl, refl, refl)
      (λ ended. guarded_busy s state files kernel k ended _ file fd p d f b)
