-- ===== src/Collector/Replication/Grades.antt =====
-- inspect/collector/replication.go with inspect/checker/rules.go: which replicas are warned about.
use we_term.Checker.Replication.{check_mysql_master, check_mysql_slave, check_redis_node}
use we_term.Collector.Probe.{Failure}
use we_term.Collector.Redis.Replicas.{grade_link, read_replica, replica_of_role}
use we_term.Collector.Replication.{
  MysqlServer, Row, collect_mysql_master, failed_master, grade_slave, master_status, read_slave,
}
use we_term.Model.Status.{is_warn}
use we_term.Prelude.{
  Bool, Bool-cases, List, String, [], arith, count_if, eq_iff, false, if◌then◌else◌, inl, inr, not,
  refl, some, true, ℕ, ◌&&◌, ◌+◌, ◌==◌, ◌||◌, ◌∷◌, ◌≡◌,
}
use we_term.Prelude.Assoc.{lookup_or}
use we_term.Prelude.Attempt.{Attempt, done, fail, is_done}
use we_term.Prelude.Int.{eqb_ℤ, leb_ℤ, ltb_ℤ, pos, ℤ}
use we_term.Prelude.Numerals.{atoi_value}

grade_slave_lem :
    (limit : ℤ) (io sql : String) (behind : ℤ)
    → (grade_slave limit io sql behind == "ok")
      ≡ (io == "Yes" && sql == "Yes" && leb_ℤ behind limit)
unfolding grade_slave
grade_slave_lem limit io sql behind = elim (Bool-cases (not (io == "Yes") || not (sql == "Yes"))) [
  | inl e ↦ simp e (ground arith)
  | inr e ↦ elim (Bool-cases (ltb_ℤ limit behind)) [
    | inl f ↦ simp (e, f) (ground arith)
    | inr f ↦ simp (e, f) (ground arith)
  ]
]

grade_link_lem :
    (limit : ℤ) (link : String) (seconds : ℤ)
    → ((grade_link limit link seconds == "ok") ≡ (link == "up" && leb_ℤ seconds limit))
      × ((grade_link limit link seconds == "") ≡ false)
      × ((grade_link limit link seconds == "N/A") ≡ false)
unfolding grade_link
grade_link_lem limit link seconds = elim (Bool-cases (not (link == "up"))) [
  | inl e ↦ simp e (ground arith, refl, refl)
  | inr e ↦ elim (Bool-cases (ltb_ℤ limit seconds)) [
    | inl f ↦ simp (e, f) (ground arith, refl, refl)
    | inr f ↦ simp (e, f) (ground arith, refl, refl)
  ]
]

role_text : (b : Bool) → ((if b then "ok" else "warn") == "ok") ≡ b
role_text true = refl
role_text false = refl

-- A MySQL slave whose status row was read gives one finding, and this is a warning unless both
-- threads run and the slave is not further behind than the limit.
warns-read_slave :
    (threshold ip : String) (limit : ℤ) (row : Row)
    → count_if is_warn (
        check_mysql_slave threshold (record {
          ip = ip;
          replication = some (read_slave limit row);
          error = "";
          error_class = "";
        }))
      ≡ (if (read_slave limit row).io_running == "Yes"
            && (read_slave limit row).sql_running == "Yes"
            && leb_ℤ (read_slave limit row).seconds_behind_master limit
          then 0
          else 1)
unfolding check_mysql_slave read_slave
warns-read_slave threshold ip limit row =
    let r = read_slave limit row in
    ground (arith, grade_slave_lem limit r.io_running r.sql_running r.seconds_behind_master)

-- the answer to the query of a master says that it can be written to
abbrev pub is_writable : Attempt Failure ℤ → Bool
is_writable (fail e) = false
is_writable (done v) = not (eqb_ℤ v (pos 1))

warns-master_status :
    (redact : String → String) (ip : String) (opened : Attempt Failure (Unit {0}))
    (answer : Attempt Failure ℤ)
    → count_if is_warn (check_mysql_master (master_status redact ip opened answer) ∷ [])
      ≡ (if is_done opened && is_writable answer then 0 else 1)
unfolding check_mysql_master master_status failed_master
warns-master_status redact ip (fail e) answer = refl
warns-master_status redact ip (done u) (fail e) = refl
warns-master_status redact ip (done u) (done v) = elim (Bool-cases (eqb_ℤ v (pos 1))) [
  | inl i ↦ simp i refl
  | inr i ↦ simp i refl
]

-- A MySQL master gives a warning unless it could be asked and answered that it is writable.
warns-collect_mysql_master :
    (redact : String → String) (server : String → MysqlServer) (ip : String)
    → count_if is_warn (check_mysql_master (collect_mysql_master redact server ip) ∷ []) ≡ (
        if is_done (server ip).opened
          && is_writable ((server ip).number "SELECT @@global.read_only")
        then 0
        else 1)
unfolding collect_mysql_master
warns-collect_mysql_master redact server ip = warns-master_status redact ip _ _

-- the warnings about a replica, in terms of what its INFO says
abbrev pub replica_warnings : String → ℤ → List (String × String) → ℕ
replica_warnings declared limit info =
    (if lookup_or "" "role" info == declared then 0 else 1)
    + (if lookup_or "" "role" info == "slave"
          && not (
              lookup_or "" "master_link_status" info == "up"
              && leb_ℤ (atoi_value (lookup_or "" "master_last_io_seconds_ago" info)) limit)
        then 1
        else 0)

-- the same of a role and the rest of an INFO
abbrev warnings_of_role : String → ℤ → List (String × String) → String → ℕ
warnings_of_role declared limit info role =
    (if role == declared then 0 else 1)
    + (if role == "slave"
          && not (
              lookup_or "" "master_link_status" info == "up"
              && leb_ℤ (atoi_value (lookup_or "" "master_last_io_seconds_ago" info)) limit)
        then 1
        else 0)

warns-replica_of_role :
    (threshold declared ip : String) (limit : ℤ) (info : List (String × String)) (role : String)
    → count_if is_warn (check_redis_node threshold (replica_of_role limit declared ip info role))
      ≡ warnings_of_role declared limit info role
unfolding check_redis_node replica_of_role
warns-replica_of_role threshold declared ip limit info role = elim (Bool-cases (role == "master")) [
  | inl e ↦ simp ((eq_iff role "master").0 e) (ground (arith, role_text ("master" == declared)))
  | inr e ↦ elim (Bool-cases (role == "slave")) [
    | inl f ↦ simp ((eq_iff role "slave").0 f) (
        let link = lookup_or "" "master_link_status" info in
        let seconds = atoi_value (lookup_or "" "master_last_io_seconds_ago" info) in
        ground (arith, role_text ("slave" == declared), grade_link_lem limit link seconds))
    | inr f ↦ simp (e, f) (ground (arith, role_text (role == declared)))
  ]
]

-- A Redis replica that answers INFO gives one warning if the role that INFO names is not the
-- declared one, and one if that role is slave and INFO does not say both that master_link_status is
-- up and that master_last_io_seconds_ago, as a number, is at most the limit; and no others.
pub warns-read_replica :
    (threshold declared ip : String) (limit : ℤ) (info : List (String × String))
    → count_if is_warn (check_redis_node threshold (read_replica limit declared ip info))
      ≡ replica_warnings declared limit info
unfolding read_replica
warns-read_replica threshold declared ip limit info =
    warns-replica_of_role threshold declared ip limit info _
