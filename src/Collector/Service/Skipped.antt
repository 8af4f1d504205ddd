-- ===== src/Collector/Service/Skipped.antt =====
-- inspect/collector/service.go with inspect/checker/rules.go: sub-modules whose checks are skipped.
use we_term.Checker.Service.{check_service, check_service_healthz, check_service_status}
use we_term.Collector.Registry.{SubModule}
use we_term.Collector.Service.{service_healthz, service_module, service_state}
use we_term.Model.Status.{is_unknown}
use we_term.Prelude.{List, String, count_if, length, refl, true, ◌≡◌}
use we_term.Prelude.Int.{pos}

state-skipped :
    (sub : SubModule) (sections : List (String × String))
    → sub.skip_status_check ≡ true
    → service_state sub sections ≡ ("", pos 0, "")
unfolding service_state
state-skipped sub sections s = rw s refl

healthz-skipped :
    (sub : SubModule) (sections : List (String × String))
    → sub.skip_healthz_check ≡ true
    → service_healthz sub sections ≡ "N/A"
unfolding service_healthz
healthz-skipped sub sections h = rw h refl

-- A sub-module whose status check is skipped still gives one finding about its status, which is
-- unknown, whatever the host answered; where its health check is skipped too, that is its only
-- finding.
check_service-skipped :
    (sections : List (String × String)) (sub : SubModule) (host_ip key : String)
    → sub.skip_status_check ≡ true
    → sub.skip_healthz_check ≡ true
    → (count_if is_unknown (check_service (service_module sections sub) host_ip key).0 ≡ 1)
      × (length (check_service (service_module sections sub) host_ip key).0 ≡ 1)
unfolding check_service service_module service_state service_healthz check_service_status
    check_service_healthz
check_service-skipped sections sub host_ip key s h =
    rw (state-skipped sub sections s) (rw (healthz-skipped sub sections h) (refl, refl))
