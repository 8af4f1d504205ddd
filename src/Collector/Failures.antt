-- ===== src/Collector/Failures.antt =====
-- inspect/collector: a component that could not be asked shows a class of error in the report.
use we_term.Prelude.Attempt.{Attempt}
