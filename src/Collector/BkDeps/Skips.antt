-- ===== src/Collector/BkDeps/Skips.antt =====
-- inspect/collector/bkmonitor_dep.go with inspect/checker/mongo.go's CheckBKDeps: a dependency is
-- silent exactly if it is not configured.
use we_term.Collector.BkDeps.{
  Connection, Tools, amqp_connection, amqp_reply, bad_http_code, endpoint_of, es7_answer, es7_code,
  influxdb_answer, influxdb_code, mysql_answer, probe_amqp, probe_es7, probe_influxdb,
  probe_mysql_login, probe_redis_login, probe_zookeeper, redis_answer, skip_if_missing, with_tool,
  zookeeper_connection,
}
use we_term.Model.RabbitMq.{DependencyResult}
use we_term.Prelude.{
  Bool, Bool-cases, Option, String, false, inl, inr, none, refl, some, true, ◌==◌, ◌||◌, ◌≡◌,
}
use we_term.Prelude.Attempt.{Attempt, done, fail}
use we_term.Prelude.Words.{trim_space}

abbrev pub is_skip : DependencyResult → Bool
is_skip d = d.status == "skip"

skip-skip_if_missing :
    (item endpoint : String) (missing : Bool) (otherwise : DependencyResult)
    → is_skip otherwise ≡ false
    → is_skip (skip_if_missing item endpoint missing otherwise) ≡ missing
unfolding skip_if_missing
skip-skip_if_missing item endpoint true otherwise h = refl
skip-skip_if_missing item endpoint false otherwise h = h

module _ (item endpoint : String) where
  skip-with_tool :
      (tools : Tools) (name detail : String) (otherwise : DependencyResult)
      → is_skip otherwise ≡ false
      → is_skip (with_tool item endpoint tools name detail otherwise) ≡ false
  unfolding with_tool
  skip-with_tool tools name detail otherwise h = elim (Bool-cases (tools.has_tool name)) [
    | inl e ↦ simp e h
    | inr e ↦ simp e refl
  ]

  skip-redis_answer :
      (out : String) (e : Option String) → is_skip (redis_answer item endpoint out e) ≡ false
  unfolding redis_answer
  skip-redis_answer out (some e) = refl
  skip-redis_answer out none = elim (Bool-cases (trim_space out == "PONG")) [
    | inl h ↦ simp h refl
    | inr h ↦ simp h refl
  ]

  skip-mysql_answer :
      (out : String) (e : Option String) → is_skip (mysql_answer item endpoint out e) ≡ false
  unfolding mysql_answer
  skip-mysql_answer out (some e) = refl
  skip-mysql_answer out none = elim (Bool-cases (trim_space out == "1")) [
    | inl h ↦ simp h refl
    | inr h ↦ simp h refl
  ]

  skip-amqp_connection :
      (vhost : String) (c : Attempt String Connection)
      → is_skip (amqp_connection item endpoint vhost c) ≡ false
  unfolding amqp_connection amqp_reply
  skip-amqp_connection vhost (fail e) = refl
  skip-amqp_connection vhost (done conn) = of_reply conn.write_error conn.answered
    where
      of_reply :
          (e : Option String) (answered : Bool)
          → is_skip (amqp_reply item endpoint vhost e answered) ≡ false
      of_reply (some e) answered = refl
      of_reply none true = refl
      of_reply none false = refl

  skip-zookeeper_connection :
      (c : Attempt String Connection) → is_skip (zookeeper_connection item endpoint c) ≡ false
  unfolding zookeeper_connection
  skip-zookeeper_connection (fail e) = refl
  skip-zookeeper_connection (done conn) = refl

  skip-bad_http_code :
      (http_code : String) → is_skip (bad_http_code item endpoint http_code) ≡ false
  unfolding bad_http_code
  skip-bad_http_code http_code = elim (Bool-cases (http_code == "" || http_code == "000")) [
    | inl h ↦ simp h refl
    | inr h ↦ simp h refl
  ]

  skip-es7_answer :
      (out : String) (e : Option String) → is_skip (es7_answer item endpoint out e) ≡ false
  unfolding es7_answer es7_code
  skip-es7_answer out (some e) = refl
  skip-es7_answer out none = elim (Bool-cases (trim_space out == "200")) [
    | inl h ↦ simp h refl
    | inr h ↦ elim (Bool-cases (trim_space out == "401" || trim_space out == "403")) [
      | inl f ↦ simp (h, f) refl
      | inr f ↦ simp (h, f) (skip-bad_http_code (trim_space out))
    ]
  ]

  skip-influxdb_answer :
      (out : String) (e : Option String) → is_skip (influxdb_answer item endpoint out e) ≡ false
  unfolding influxdb_answer influxdb_code
  skip-influxdb_answer out (some e) = refl
  skip-influxdb_answer out none =
      elim (Bool-cases (trim_space out == "204" || trim_space out == "200")) [
        | inl h ↦ simp h refl
        | inr h ↦ simp h (skip-bad_http_code (trim_space out))
      ]

-- Whatever the host answers, each of the six probes says skip exactly if its host or its port is
-- not configured, or the user for MySQL and RabbitMQ.
pub probes_skip_exactly :
    (tools : Tools) (item host port user password : String)
    → (is_skip (probe_redis_login tools item host port password) ≡ (host == "" || port == ""))
      × (is_skip (probe_mysql_login tools item host port user password)
          ≡ (host == "" || port == "" || user == ""))
      × (is_skip (probe_amqp tools item host port user password)
          ≡ (host == "" || port == "" || user == ""))
      × (is_skip (probe_zookeeper tools item host port) ≡ (host == "" || port == ""))
      × (is_skip (probe_es7 tools item host port user password) ≡ (host == "" || port == ""))
      × (is_skip (probe_influxdb tools item host port) ≡ (host == "" || port == ""))
unfolding probe_redis_login probe_mysql_login probe_amqp probe_zookeeper probe_es7 probe_influxdb
probes_skip_exactly tools item host port user password =
    let endpoint = endpoint_of host port in
    (
      skip-skip_if_missing item endpoint _ _
          (skip-with_tool item endpoint tools _ _ _ (skip-redis_answer item endpoint _ _)),
      skip-skip_if_missing item endpoint _ _
          (skip-with_tool item endpoint tools _ _ _ (skip-mysql_answer item endpoint _ _)),
      skip-skip_if_missing item endpoint _ _ (skip-amqp_connection item endpoint password _),
      skip-skip_if_missing item endpoint _ _ (skip-zookeeper_connection item endpoint _),
      skip-skip_if_missing item endpoint _ _
          (skip-with_tool item endpoint tools _ _ _ (skip-es7_answer item endpoint _ _)),
      skip-skip_if_missing item endpoint _ _
          (skip-with_tool item endpoint tools _ _ _ (skip-influxdb_answer item endpoint _ _)),
    )
