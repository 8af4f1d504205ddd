-- ===== src/Collector/Redis/Standalone.antt =====
-- inspect/collector/redis.go with inspect/checker/redis.go: a node that does not answer is warned
-- about.
use Prim.Native.Char.{Char}
use mathlib.Core.Path.{ap₂}
use we_term.Checker.Redis.{check_redis}
use we_term.Checker.Severity.{warns-check_redis}
use we_term.Collector.Probe.{Failure}
use we_term.Collector.Redis.{
  RedisClient, blank_node, collect_redis_standalone, join_host_port, node_of_answer,
  probe_redis_node,
}
use we_term.Config.Settings.{Config}
use we_term.Config.Thresholds.{Thresholds}
use we_term.Model.Component.{RedisNode}
use we_term.Model.Status.{is_warn}
use we_term.Prelude.{
  Bool, Bool-cases, List, String, [], ap, count_if, eq_iff, false, if◌then◌else◌, inl, inr, map,
  not, refl, ◌+◌, ◌==◌, ◌∙◌, ◌∷◌, ◌≡◌,
}
use we_term.Prelude.Attempt.{Attempt, done, fail, is_done}
use we_term.Prelude.Text.{append, concat}

cons-not_empty : (c : Char) (s : String) → (String.◌∷◌ c s == "") ≡ false
cons-not_empty c s = elim (Bool-cases (String.◌∷◌ c s == "")) [
  | inr e ↦ e
  | inl e ↦ absurd (cc ((eq_iff (String.◌∷◌ c s) "").0 e))
]

-- INFO of the node at an address goes through
abbrev pub answers_info : RedisClient → String → String → String → Bool
answers_info client port password ip = is_done (client.info (join_host_port ip port) password 0 "")

error-node_of_answer :
    (client : RedisClient) (target password ip : String) (answer : Attempt Failure String)
    → not ((node_of_answer client target password ip answer).0.error == "") ≡ not (is_done answer)
unfolding node_of_answer blank_node concat append
error-node_of_answer client target password ip (fail e) = ap not (cons-not_empty _ _)
error-node_of_answer client target password ip (done out) = refl

ip-node_of_answer :
    (client : RedisClient) (target password ip : String) (answer : Attempt Failure String)
    → (node_of_answer client target password ip answer).0.ip ≡ ip
unfolding node_of_answer blank_node
ip-node_of_answer client target password ip (fail e) = refl
ip-node_of_answer client target password ip (done out) = refl

-- In the report of the standalone nodes there is one node for each configured address, in order,
-- and the rules warn as often as there are addresses whose INFO fails, whatever the thresholds are.
pub warns-collect_redis_standalone :
    {F : Type 0} (client : RedisClient) (cfg : Config F) (t : Thresholds F)
    → (map (λ n. n.ip) (collect_redis_standalone client cfg) ≡ cfg.addresses.redis_ips)
      × (count_if is_warn (check_redis (collect_redis_standalone client cfg) t).0
          ≡ count_if
              (λ ip. not (answers_info client cfg.ports.redis_port cfg.creds.redis_password ip))
              cfg.addresses.redis_ips)
unfolding collect_redis_standalone probe_redis_node
warns-collect_redis_standalone client cfg t =
    (in_order cfg.addresses.redis_ips, warns-check_redis _ t ∙ counted cfg.addresses.redis_ips)
  where
    node : String → RedisNode
    node ip = (probe_redis_node client cfg.ports.redis_port cfg.creds.redis_password ip).0

    in_order : (ips : List String) → map (λ n. n.ip) (map node ips) ≡ ips
    in_order [] = refl
    in_order (ip ∷ ips) = ap₂ ◌∷◌ (ip-node_of_answer client _ _ ip _) (in_order ips)

    counted :
        (ips : List String)
        → count_if (λ n. not (n.error == "")) (map node ips)
          ≡ count_if
              (λ ip. not (answers_info client cfg.ports.redis_port cfg.creds.redis_password ip))
              ips
    counted [] = refl
    counted (ip ∷ ips) =
        ap₂ (λ b n. (if b then 1 else 0) + n)
          (error-node_of_answer client _ cfg.creds.redis_password ip _) (counted ips)
