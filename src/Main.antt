-- ===== src/Main.antt =====
-- inspect/main.go: main, with ConfigPath of inspect/notify/config.go. What the program meets outside
-- itself is the record Session.
pub mod Ends
pub mod Locking
pub mod Agrees
use Prim.Native.Char.{code}
use we_term.Checker.Result.{result}
use we_term.Config.Env.{Env, LoadError, getenv}
use we_term.Config.Hosts.{validate_hosts}
use we_term.Config.Load.{load}
use we_term.Config.Settings.{Config}
use we_term.Lock.{Kernel, LockError, acquire, busy, failed, release}
use we_term.Model.Float.{FloatOps}
use we_term.Model.Report.{InspectReport}
use we_term.Notify.Config.{ConfigFile, Loaded, NotifyConfig, load_notify, loaded}
use we_term.Notify.Dispatch.{
  Mail, Outcome, PrepContext, StateFile, World, dispatch, file_after, prepare,
}
use we_term.Output.{Reports, Writer, write_reports}
use we_term.Prelude.{Bool, Option, String, eqb, false, if◌then◌else◌, none, some, ℕ, ◌==◌}
use we_term.Prelude.Attempt.{Attempt, done, fail}
use we_term.Prelude.Text.{append}
use we_term.Runner.{Probes}
use we_term.Runner.Run.{run}

-- The command line, the environment, and the answers of the file system, of the lock file's
-- directory and opening, of the collectors, of the clock, and of the mail library. `home` is
-- os.UserHomeDir, `html_read` what reading the written report answers.
pub record Session (F : Type 0) : Type 0 where
  pub shows_version : Bool
  pub output_dir : String
  pub env : Env
  pub home : Attempt String String
  pub lock_dir_error : Option String
  pub lock_file : Attempt String ℕ
  pub probes : Probes F
  pub notify_file : ConfigFile
  pub now : ℕ
  pub world : World
  pub writer : Writer F
  pub html_read : Option String

-- What a run of the program leaves behind, and the mail that it tried to send.
pub record Ended : Type 0 where
  pub exit_code : ℕ
  pub state : StateFile
  pub reports : Reports
  pub attempted : Option Mail

-- the path below the home directory, a clean path
unfoldable pub default_path : Attempt String String → Attempt String String
default_path (fail e) = fail (append "resolve home dir: " e)
default_path (done dir) = done (append dir "/.config/weops/config.json")

-- ConfigPath
unfoldable pub config_path : Env → Attempt String String → Attempt String String
config_path env home =
    let path = getenv env "WEOPS_CONFIG" in if path == "" then default_path home else done path

-- notify.Load with ConfigPath; main goes on without a configuration where there is an error
unfoldable pub notify_config : Attempt String String → ConfigFile → Option NotifyConfig
notify_config (fail e) file = none
notify_config (done path) file = elim (load_notify path file) [ loaded cfg ↦ some cfg | _ ↦ none ]

module _ {F : Type 0} (s : Session F) (state : StateFile) (files : Reports) where
  -- an end before anything is stored or sent
  abbrev pub stopped : ℕ → Reports → Ended
  stopped code files' = record {
    exit_code = code;
    state = state;
    reports = files';
    attempted = none;
  }

  -- Dispatch; without a configuration Prepare gave no context
  unfoldable pub dispatch_config :
      Option NotifyConfig → Option PrepContext → InspectReport F → String → Outcome
  dispatch_config none ctx report path = record {
    attempted = none;
    delivered = false;
    saved = none;
  }
  dispatch_config (some cfg) ctx report path = dispatch s.world ctx cfg report path s.html_read

  -- the end of a run that Dispatch closes
  unfoldable pub closed : Reports → Outcome → Ended
  closed files' o = record {
    exit_code = 0;
    state = file_after s.world o state;
    reports = files';
    attempted = o.attempted;
  }

  unfoldable pub after_write :
      Option NotifyConfig
      → Option PrepContext
      → InspectReport F
      → Reports × Attempt String String
      → Ended
  after_write c ctx report (files', fail e) = stopped 1 files'
  after_write c ctx report (files', done path) = closed files' (dispatch_config c ctx report path)

  unfoldable pub after_prepare :
      String → Option NotifyConfig → Option PrepContext × InspectReport F → Ended
  after_prepare dir c (ctx, report) =
      after_write c ctx report (write_reports s.writer report dir files)

  unfoldable pub after_run : String → Option NotifyConfig → Attempt String (InspectReport F) → Ended
  after_run dir c (fail e) = stopped 1 files
  after_run dir c (done report) = after_prepare dir c (prepare c state s.now report)

  -- the part of main behind the lock
  unfoldable pub inspect : FloatOps F → Config F → Ended
  inspect fl cfg =
      after_run cfg.output_dir (notify_config (config_path s.env s.home) s.notify_file)
        (run ⦃fl = fl⦄ s.probes cfg).result

  module _ {K : Type 0} (kernel : Kernel K) (k : K) where
    -- main returns with exit code 0, and then the deferred release runs; os.Exit ends the program
    -- with another code and without it, and the table is the one before the kernel cleans up
    unfoldable pub at_end : ℕ → ℕ → K → K
    at_end code fd k' = if eqb code 0 then release ⦃kernel = kernel⦄ fd k' else k'

    -- Who finds the lock held leaves with exit code 0, and any other error is ignored.
    unfoldable pub with_lock : Ended → Attempt LockError (ℕ × K) → Ended × K
    with_lock ended (done (fd, k')) = (ended, at_end ended.exit_code fd k')
    with_lock ended (fail busy) = (stopped 0 files, k)
    with_lock ended (fail (failed e)) = (ended, k)

    unfoldable pub guarded : Ended → Attempt String String → Ended × K
    guarded ended (fail e) = (ended, k)
    guarded ended (done path) =
        with_lock ended (acquire ⦃kernel = kernel⦄ s.lock_dir_error s.lock_file k)

    -- what main does with the loaded settings, by what Validate answers
    unfoldable pub validated : Ended → Option String → Ended × K
    validated ended (some e) = (stopped 1 files, k)
    validated ended none = guarded ended (config_path s.env s.home)

    unfoldable pub after_load : FloatOps F → Attempt (LoadError F) (Config F) → Ended × K
    after_load fl (fail e) = (stopped 1 files, k)
    after_load fl (done cfg) = validated (inspect fl cfg) (validate_hosts cfg.all_hosts)

    -- main: what it leaves behind, and the kernel's table of locks
    unfoldable pub main : FloatOps F → Ended × K
    main fl =
        if s.shows_version
        then (stopped 0 files, k)
        else after_load fl (load ⦃fl = fl⦄ s.env s.output_dir)
