-- ===== src/Lib.antt =====
-- Verification of the inspection and alerting core of WeTerm (directory inspect of the repository).
--
-- One run of the inspection loads its settings from the environment, collects host metrics, service
-- states and component states in three phases, grades them by rules into check results, and sums
-- these up in a report. The notifier then takes the warnings of the report as alerts, lets through
-- those that lasted for N runs, demotes the others in the report to notices, decides between an alert
-- mail, a recovery mail and silence, and stores its state for the next run.
--
-- Which file models what:
--   Model        inspect/model/types.go: each struct is a record, CheckStatus a data type. float64 is
--                an abstract type with the operations of Model/Float, of which no law is assumed.
--   Config       inspect/config/config.go: Load over the environment as a function from names to
--                texts (Env: the readers of one variable; Load; Hosts: the host lists).
--   Checker      inspect/checker: one file for each component. A Check function that writes render
--                states through a pointer returns its results and the changed data.
--   Runner       inspect/runner/runner.go: Run and RunHostsOnly, with CrossCheckSentinelMaster of
--                inspect/collector/replication.go. The answers of the SSH client, of the collectors
--                and of the context are the record Probes.
--   Collector    inspect/collector: Probe (probe.go: the classes of errors), Redis and Sentinel
--                (redis.go), Replication (replication.go), RabbitMq and RabbitApi (rabbitmq.go), Mysql,
--                Mongo and Es (the files of these names), Host, HostOutput, Disk and Sections
--                (host.go), Service, ServiceCommand and Registry (service.go, service_registry.go),
--                BkDeps (bkmonitor_dep.go), Json (encoding/json as they use it).
--   Lock         inspect/lock/lock.go: Acquire and release; Lock/System is the kernel's table of locks with
--                the instances that run, which begin and end in any order.
--   Notify       inspect/notify: Alerts (alerts.go), Persistence (persistence.go), Demote and Dispatch
--                (notify.go, state.go), Trigger (trigger.go), Signature (signature.go), Config
--                (config.go), Email (email.go) and HtmlFrag (htmlfrag.go).
--   Output       inspect/output/writer.go: Write and the two report files.
--   Main         inspect/main.go: main, which calls all of the above in the order of one run.
--   Procmon      procmon/cmd/procmon: Procfs (procfs.go), Collect (collect.go), Prune (prune.go),
--                Container (container.go, its regular expressions as searches).
--   Prelude      shared types and lemmas, and what the code uses of Go's strings and strconv.
--   Tests        the theorems applied to concrete inputs.
--
-- How state is modelled: the state file is missing, unreadable, corrupt or holds a State; Prepare and
-- Dispatch take the file, the clock and the mail server as arguments and return what they send and
-- store. Sequences of runs are lists of rounds from state file to state file, those that store nothing
-- included (Notify/Dispatch/Lasting), and step relations on the stored state (Notify/Dispatch/Rounds,
-- Notify/Dispatch/Resend). Notify/Persistence/History and Cadence are about runs that each stored
-- their pending map.
--
-- What is outside the program is an argument: the clients RedisClient, MysqlServer and MongoDriver,
-- the tools of a host (Tools), what curl answers (CurlFailure), the decoders of JSON, RedactDSN
-- (redact) and url.QueryEscape (escape), the files of a process (Readings), the outcomes of removals
-- (removes), and the kernel's table of locks (Kernel, with KernelLaws: what flock(2) documents).
-- Goroutines that append under a mutex are the list of their appends in the order of the mutex.
--
-- Conventions and bounds:
--   - Times are nanoseconds since Go's zero time. A difference of times saturates and the cooldown
--     wraps around as an int64 does, and so do sums of messages; other counters are taken as
--     unbounded.
--   - A Go map is an association list; where the code ranges over a map the list is in the order of
--     that visit. Equal sort keys keep their order, which sort.Slice leaves open.
--   - Texts are sequences of code points: valid UTF-8 is assumed, for which Go's byte order is theirs.
--   - Decimal printing takes the number itself as fuel; a division by ten shrinks a positive number,
--     so that it is enough. All other recursion is structural.
--   - SHA-256, the mail library and the step at which writing the state fails are the record World.
--     The JSON form of the state is taken to read back as it was written.
--   - The order in which Load reads variables does not matter, except among those that can fail.
--
-- Not modelled: SSH, the HTML templates (inspect/render, an argument of Write) and the terminal
-- screens, which are input and output, messages on stderr and the log lines of probes; the pattern
-- of RedactDSN, a regular expression of Go's library; the reporter of procmon, which is Python.
pub mod Prelude
pub mod Model
pub mod Notify
pub mod Checker
pub mod Config
pub mod Runner
pub mod Tests
pub mod Collector
pub mod Procmon
pub mod Lock
pub mod Output
pub mod Main
