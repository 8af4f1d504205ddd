-- ===== src/Collector/Sentinel/Status.antt =====
-- inspect/collector/redis.go: what the status of a Sentinel cluster says.
use mathlib.Core.List.{Memᴰ}
use we_term.Collector.Redis.{RedisClient, join_host_port}
use we_term.Collector.Sentinel.{
  discover_master, discovered, reachable_count, redis_ping, sentinel_get_master,
}
use we_term.Config.Settings.{Config}
use we_term.Model.Component.{SentinelNodeStatus}
use we_term.Prelude.{
  Bool, Bool-cases, List, Option-cases, String, [], arith, false, inl, inr, length, ltb, not, refl,
  some, true, ◌==◌, ◌||◌, ◌∷◌, ◌≡◌,
}

module _ {F : Type 0} (client : RedisClient) (env : String → String → String) (cfg : Config F) where
  abbrev named_and_answers : Bool
  named_and_answers = not ((discovered client env cfg).0 == "" || not (discovered client env cfg).1)

  abbrev has_all : Bool
  has_all = not (ltb (reachable_count client env cfg) (length cfg.addresses.redis_sentinel_ips))

-- A master that the loop finds is one that a reachable sentinel of the list names, and it counts as
-- reachable exactly if its own ping is answered with PONG.
discover_master_named :
    (client : RedisClient) (name password : String) (sentinels : List SentinelNodeStatus)
    → ((discover_master client name password sentinels).0 == "") ≡ false
    → (s : SentinelNodeStatus) × (ip : String) × (port : String) × Memᴰ s sentinels
      × (s.reachable ≡ true)
      × (sentinel_get_master client s.ip s.port name ≡ some (ip, port))
      × (discover_master client name password sentinels
          ≡ (join_host_port ip port, redis_ping client ip port password))
unfolding discover_master
discover_master_named client name password [] h = absurd (ground arith)
discover_master_named client name password (s ∷ rest) h = elim (Bool-cases s.reachable) [
  | inr e ↦ simp e (later (discover_master_named client name password rest (simp e at h)))
  | inl e ↦ elim (Option-cases (sentinel_get_master client s.ip s.port name)) [
    | inl f ↦
        simp (e, f) (later (discover_master_named client name password rest (simp (e, f) at h)))
    | inr ((ip, port), f) ↦ elim (Bool-cases (ip == "")) [
      | inl g ↦
          simp (e, f, g)
            (later (discover_master_named client name password rest (simp (e, f, g) at h)))
      | inr g ↦ simp (e, f, g) (s, ip, port, Memᴰ.head refl, e, f, refl)
    ]
  ]
]
  where
    Named : List SentinelNodeStatus → List SentinelNodeStatus → Type 0
    Named among tried =
        (s : SentinelNodeStatus) × (ip : String) × (port : String) × Memᴰ s among
        × (s.reachable ≡ true)
        × (sentinel_get_master client s.ip s.port name ≡ some (ip, port))
        × (discover_master client name password tried
            ≡ (join_host_port ip port, redis_ping client ip port password))

    later : Named rest rest → Named (s ∷ rest) rest
    later (t, ip, port, m, a, b, c) = (t, ip, port, Memᴰ.tail m, a, b, c)
