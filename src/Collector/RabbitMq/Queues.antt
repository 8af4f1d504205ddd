-- ===== src/Collector/RabbitMq/Queues.antt =====
-- inspect/collector/rabbitmq.go: what the loop over the queues finds.
use we_term.Collector.Json.{Fields}
use we_term.Collector.RabbitMq.{is_skipped, no_summary, queue_info}
use we_term.Model.Float.{FloatOps}
use we_term.Model.RabbitMq.{RabbitMqQueue, RabbitMqVhostSummary}
use we_term.Prelude.{List, String, [], if◌then◌else◌, ◌∷◌}
use we_term.Prelude.Assoc.{lookup_or}
use we_term.Prelude.Int.{ℤ}

module _ {F : Type 0} ⦃fl : FloatOps F⦄ where
  -- the queues that are looked at, in order
  unfoldable pub counted : List (Fields F) → List (RabbitMqQueue F)
  counted [] = []
  counted (q ∷ queues) =
      let rest = counted queues in if is_skipped q then rest else queue_info q ∷ rest

-- how many queues of a virtual host a map of summaries has counted
abbrev pub queues_of : String → List (String × RabbitMqVhostSummary) → ℤ
queues_of v summaries = (lookup_or (no_summary v) v summaries).queues
