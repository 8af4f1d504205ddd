-- ===== src/Checker/Service.antt =====
-- inspect/checker/rules.go: CheckService, CheckServiceContainers and CheckServiceCollectError.
-- Each returns its results and the data with the render states that the source writes.
use we_term.Checker.Result.{result}
use we_term.Config.Thresholds.{Thresholds}
use we_term.Model.Host.{ServiceModule, ServiceStatus}
use we_term.Model.Status.{CheckResult, CheckStatus, notice, ok, unknown, unset, warn}
use we_term.Prelude.{List, String, [], if◌then◌else◌, ◌&&◌, ◌==◌, ◌∷◌}
use we_term.Prelude.Int.{eqb_ℤ, ltb_ℤ, pos}
use we_term.Prelude.Text.{append, concat, itoa}

-- the switch on the status of a module
unfoldable pub check_service_status : String → String → CheckStatus × CheckResult
unfolding append
check_service_status prefix status =
    if status == ""
    then (unknown, result (append prefix "status") "(empty)" unknown "期望 active")
    else if status == "active"
    then (ok, result (append prefix "status") status ok "期望 active")
    else (warn, result (append prefix "status") status warn "期望 active")

-- the chain on the answer of the health API
unfoldable pub check_service_healthz : String → String → CheckStatus × List CheckResult
unfolding append
check_service_healthz prefix api =
    if api == ""
    then (unset, [])
    else if api == "N/A"
    then (unset, [])
    else if api == "ok"
    then (ok, result (append prefix "healthz") api ok "期望 ok" ∷ [])
    else (warn, result (append prefix "healthz") api warn "期望 ok" ∷ [])

-- CheckService; the host's address is not used
unfoldable pub check_service : ServiceModule → String → String → List CheckResult × ServiceModule
unfolding check_service_status check_service_healthz concat
check_service sm host_ip module_key =
    let prefix = concat ("service." ∷ module_key ∷ "/" ∷ sm.module_name ∷ "." ∷ []) in
    let status = check_service_status prefix sm.status in
    let healthz = check_service_healthz prefix sm.healthz_api in
    (
      status.1 ∷ healthz.1,
      record sm { render_status = status.0; healthz_render_status = healthz.0 },
    )

module _ {F : Type 0} where
  -- CheckServiceContainers
  unfoldable pub check_service_containers :
      ServiceStatus → Thresholds F → List CheckResult × ServiceStatus
  unfolding concat itoa
  check_service_containers s t =
      if eqb_ℤ s.containers_up (pos 0) && eqb_ℤ s.containers_exited (pos 0)
      then ([], s)
      else if ltb_ℤ t.service_containers_exited s.containers_exited
      then (
        result (concat ("service." ∷ s.module_name ∷ ".docker.exited" ∷ []))
              (itoa s.containers_exited) notice
              (concat ("> " ∷ itoa t.service_containers_exited ∷ []))
            ∷ [],
        record s { exited_render_status = notice },
      )
      else ([], record s { exited_render_status = ok })

-- CheckServiceCollectError
unfoldable pub check_service_collect_error : ServiceStatus → List CheckResult
unfolding concat
check_service_collect_error s =
    if s.error == ""
    then []
    else result (concat ("service." ∷ s.module_name ∷ ".collect_error" ∷ [])) s.error notice "" ∷ []
