-- ===== src/Config/Load/Hosts.antt =====
-- inspect/config/config.go: the host list of a loaded configuration.
use we_term.Config.Env.{Env, IsItem, getenv, parse_int_env, parse_ip_list, parse_ip_list-IsItem}
use we_term.Config.Hosts.{add_ips, add_lists, build_all_hosts, ip_lists}
use we_term.Config.Hosts.Exact.{build_all_hosts_exact}
use we_term.Config.Load.{load, load_addresses, load_thresholds}
use we_term.Config.Settings.{Config}
use we_term.Model.Float.{FloatOps}
use we_term.Prelude.{All, All-append, Bool-cases, List, String, [], arith, inl, inr, ◌∷◌, ◌≡◌}
use we_term.Prelude.Attempt.{>>=-done, done}
use we_term.Prelude.Int.{pos}
use we_term.Prelude.Sorting.{Distinct, mem}

add_ips-All {ℓ} :
    (P : String → Type ℓ) (seen ips : List String) → All P ips → All P (add_ips seen ips).0
unfolding add_ips
add_ips-All P seen [] h = tt
add_ips-All P seen (ip ∷ ips) h = elim (Bool-cases (mem ip seen)) [
  | inl e ↦ rw e (add_ips-All P seen ips h.1)
  | inr e ↦ rw e (h.0, add_ips-All P (ip ∷ seen) ips h.1)
]

add_lists-All {ℓ} :
    (P : String → Type ℓ) (seen : List String) (xss : List (List String))
    → All (All P) xss
    → All P (add_lists seen xss)
unfolding add_lists
add_lists-All P seen [] h = tt
add_lists-All P seen (xs ∷ xss) h =
    All-append P (add_ips seen xs).0 (add_lists (add_ips seen xs).1 xss) (add_ips-All P seen xs h.0)
      (add_lists-All P (add_ips seen xs).1 xss h.1)

load_addresses-IsItem : (env : Env) → All (All IsItem) (ip_lists (load_addresses env))
unfolding load_addresses
load_addresses-IsItem env =
    let item : (key : String) → All IsItem (parse_ip_list (getenv env key)) =
      λ key. parse_ip_list-IsItem (getenv env key) in
    (
      item "BK_PAAS_IP_COMMA",
      (
        item "BK_CMDB_IP_COMMA",
        (
          item "BK_JOB_IP_COMMA",
          (
            item "BK_GSE_IP_COMMA",
            (
              item "BK_APPO_IP_COMMA",
              (
                item "BK_APPT_IP_COMMA",
                (
                  item "BK_IAM_IP_COMMA",
                  (
                    item "BK_USERMGR_IP_COMMA",
                    (
                      item "BK_NODEMAN_IP_COMMA",
                      (
                        item "BK_MONITORV3_IP_COMMA",
                        (
                          item "BK_MONITORV3_MONITOR_IP_COMMA",
                          (
                            item "BK_MONITORV3_INFLUXDB_PROXY_IP_COMMA",
                            (
                              item "BK_MONITORV3_TRANSFER_IP_COMMA",
                              (
                                item "BK_MONITORV3_UNIFY_QUERY_IP_COMMA",
                                (
                                  item "BK_ES7_IP_COMMA",
                                  (
                                    item "BK_RABBITMQ_IP_COMMA",
                                    (
                                      item "BK_MYSQL_IP_COMMA",
                                      (
                                        item "BK_MONGODB_IP_COMMA",
                                        (
                                          item "BK_REDIS_IP_COMMA",
                                          (item "BK_REDIS_SENTINEL_IP_COMMA", tt),
                                        ),
                                      ),
                                    ),
                                  ),
                                ),
                              ),
                            ),
                          ),
                        ),
                      ),
                    ),
                  ),
                ),
              ),
            ),
          ),
        ),
      ),
    )

load-all_hosts :
    {F : Type 0} (fl : FloatOps F) (env : Env) (output_dir : String) (c : Config F)
    → load ⦃fl = fl⦄ env output_dir ≡ done c
    → c.all_hosts ≡ build_all_hosts (load_addresses env)
unfolding load
load-all_hosts fl env output_dir c h =
    let t = >>=-done (load_thresholds ⦃fl = fl⦄ env) _ h in
    let p = >>=-done (parse_int_env env "INSPECT_SSH_PORT" (pos 22)) _ t.2 in
    let a = >>=-done (parse_int_env env "INSPECT_RABBITMQ_API_TIMEOUT_SEC" (pos 60)) _ p.2 in
    ground (arith, a.2)

-- The hosts of a loaded configuration are distinct, not empty and without spaces around them.
pub load_hosts :
    {F : Type 0} (fl : FloatOps F) (env : Env) (output_dir : String) (c : Config F)
    → load ⦃fl = fl⦄ env output_dir ≡ done c
    → Distinct c.all_hosts × All IsItem c.all_hosts
unfolding build_all_hosts
load_hosts fl env output_dir c h = rw (load-all_hosts fl env output_dir c h) (
  (build_all_hosts_exact (load_addresses env)).0,
  add_lists-All IsItem [] (ip_lists (load_addresses env)) (load_addresses-IsItem env),
)
