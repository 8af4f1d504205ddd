-- ===== src/Collector/Service.antt =====
-- inspect/collector/service.go: the services on a host, from the sections of one command.
pub mod Skipped
pub mod Order
use we_term.Collector.Registry.{SubModule}
use we_term.Collector.Sections.{parse_properties, parse_sections}
use we_term.Model.Host.{ServiceModule, ServiceStatus}
use we_term.Model.Status.{unset}
use we_term.Prelude.{
  Bool, List, Option, String, [], count_if, if◌then◌else◌, map, none, not, some, ◌&&◌, ◌==◌, ◌||◌,
  ◌∷◌,
}
use we_term.Prelude.Assoc.{lookup, lookup_or}
use we_term.Prelude.Case.{contains_folded, upper_code}
use we_term.Prelude.Int.{pos, ℤ}
use we_term.Prelude.Numerals.{atoi_value}
use we_term.Prelude.Search.{contains, has_prefix}
use we_term.Prelude.Text.{concat}
use we_term.Prelude.Words.{split_on, trim_space}

-- the switch on the type of a health check
unfoldable pub grade_healthz : String → String → String
grade_healthz kind hz =
    if kind == "http_status"
    then if hz == "200" then "ok" else hz
    else if kind == "http_alive"
    then if hz == "unreachable" || hz == "" then "unreachable" else "ok"
    else if kind == "json_ok"
    then if contains hz "\"ok\"" && (contains hz "true" || contains hz "True")
      then "ok"
      else if hz == "unreachable"
      then "unreachable"
      else "fail"
    else if kind == "json_up"
    then if contains_folded upper_code hz "\"UP\""
      then "ok"
      else if hz == "unreachable"
      then "unreachable"
      else "fail"
    else "N/A"

-- Status, MainPID and StartTime
unfoldable pub service_state : SubModule → List (String × String) → String × ℤ × String
service_state sub sections =
    if sub.skip_status_check
    then ("", pos 0, "")
    else elim (lookup (concat ("SVC_" ∷ sub.name ∷ [])) sections) [
      | none ↦ ("", pos 0, "")
      | some svc ↦ of_properties (parse_properties svc)
    ]
  where
    of_properties : List (String × String) → String × ℤ × String
    of_properties props = (
      if lookup_or "" "ActiveState" props == ""
          then "unknown"
          else lookup_or "" "ActiveState" props,
      atoi_value (lookup_or "" "MainPID" props),
      lookup_or "" "ExecMainStartTimestamp" props,
    )

-- HealthzAPI
unfoldable pub service_healthz : SubModule → List (String × String) → String
service_healthz sub sections =
    if sub.skip_healthz_check
    then "N/A"
    else elim (lookup (concat ("HZ_" ∷ sub.name ∷ [])) sections) [
      | none ↦ ""
      | some hz ↦ grade_healthz sub.healthz_type (trim_space hz)
    ]

-- the body of the loop over the sub-modules
unfoldable pub service_module : List (String × String) → SubModule → ServiceModule
service_module sections sub = record {
  module_name = sub.name;
  status = (service_state sub sections).0;
  resolved = "N/A";
  healthz_api = service_healthz sub sections;
  main_pid = (service_state sub sections).1;
  start_time = (service_state sub sections).2;
  workers = elim (lookup (concat ("WK_" ∷ sub.name ∷ [])) sections) [
    | none ↦ pos 0
    | some wk ↦ atoi_value (trim_space wk)
  ];
  render_status = unset;
  healthz_render_status = unset;
}

abbrev is_up : String → Bool
is_up line = has_prefix (trim_space line) "Up"

abbrev is_exited : String → Bool
is_exited line = not (has_prefix (trim_space line) "Up") && has_prefix (trim_space line) "Exited"

unfoldable pub no_services : String → String → ServiceStatus
no_services name host = record {
  host_ip = host;
  module_name = name;
  services = [];
  containers_up = pos 0;
  containers_exited = pos 0;
  exited_render_status = unset;
  error = "";
}

-- what is made of the sections
unfoldable pub service_status :
    String → String → List SubModule → List (String × String) → ServiceStatus
service_status name host subs sections = elim (lookup "DOCKER" sections) [
  | none ↦ record (no_services name host) { services = map (service_module sections) subs }
  | some docker ↦ record (no_services name host) {
    services = map (service_module sections) subs;
    containers_up = pos (count_if is_up (split_on 10 docker));
    containers_exited = pos (count_if is_exited (split_on 10 docker));
  }
]

-- collectServiceOnHost, of what `client.Run` answers: the output, and the text of an error
unfoldable pub collect_service_on_host :
    String → String → List SubModule → String → Option String → ServiceStatus
collect_service_on_host name host subs out none = service_status name host subs (parse_sections out)
collect_service_on_host name host subs out (some e) =
    if out == ""
    then record (no_services name host) { error = concat ("SSH error: " ∷ e ∷ []) }
    else service_status name host subs (parse_sections out)
