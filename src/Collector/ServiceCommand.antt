-- ===== src/Collector/ServiceCommand.antt =====
-- inspect/collector/service.go: the command that asks for the services on a host.
use we_term.Collector.Registry.{SubModule}
use we_term.Prelude.{List, String, [], eqb, if◌then◌else◌, ◌++◌, ◌==◌, ◌||◌, ◌∷◌}
use we_term.Prelude.Fields.{join}
use we_term.Prelude.Int.{pos}
use we_term.Prelude.Text.{concat, itoa}

-- the shell functions hz_http and hz_body
abbrev shell_functions : List String
shell_functions =
    "hz_http(){ c=$(curl -s --connect-timeout \"$2\" -o /dev/null -w \"%{http_code}\" \"$1\" 2>/dev/null); [ -n \"$c\" ] && [ \"$c\" != \"000\" ] && echo \"$c\"; }"
    ∷ "hz_body(){ b=$(curl -s --connect-timeout \"$2\" \"$1\" 2>/dev/null); [ -n \"$b\" ] && echo \"$b\"; }"
    ∷ []

-- systemctl show, unless it is skipped
unfoldable pub status_part : SubModule → List String
status_part sub =
    if sub.skip_status_check
    then []
    else concat (
        "echo \"===SVC_" ∷ sub.name ∷ "===\"; systemctl show " ∷ sub.service_unit
        ∷ ".service --property=ActiveState,MainPID,ExecMainStartTimestamp 2>/dev/null || echo \"ActiveState=not-found\""
        ∷ [])
      ∷ []

-- the call of a shell function for the local address and then for the host
unfoldable pub healthz_call : String → String → String → SubModule → String
healthz_call function seconds host sub = concat (
    "echo \"===HZ_" ∷ sub.name ∷ "===\"; " ∷ function ∷ " http://127.0.0.1:" ∷ port
    ∷ sub.healthz_path ∷ " " ∷ seconds ∷ " || " ∷ function ∷ " http://" ∷ host ∷ ":" ∷ port
    ∷ sub.healthz_path ∷ " " ∷ seconds ∷ " || echo unreachable" ∷ [])
  where
    port : String
    port = itoa (pos (if eqb sub.healthz_port 0 then sub.port else sub.healthz_port))

-- the switch on the type of the health check
unfoldable pub healthz_part : String → SubModule → List String
healthz_part host sub =
    if sub.skip_healthz_check
    then []
    else if sub.healthz_type == "http_status" || sub.healthz_type == "http_alive"
    then healthz_call "hz_http" "2" host sub ∷ []
    else if sub.healthz_type == "json_ok"
    then healthz_call "hz_body" "2" host sub ∷ []
    else if sub.healthz_type == "json_up"
    then healthz_call "hz_body" "5" host sub ∷ []
    else concat ("echo \"===HZ_" ∷ sub.name ∷ "===\"; echo \"N/A\"" ∷ []) ∷ []

unfoldable pub worker_part : SubModule → String
worker_part sub = concat (
    "echo \"===WK_" ∷ sub.name ∷ "===\"; ps -ef | grep '" ∷ sub.process_name
    ∷ "' | grep -v grep | wc -l" ∷ [])

-- the loop over the sub-modules
unfoldable pub sub_module_parts : String → List SubModule → List String
sub_module_parts host [] = []
sub_module_parts host (sub ∷ subs) =
    status_part sub ++ (healthz_part host sub ++ (worker_part sub ∷ sub_module_parts host subs))

-- strings.Join(cmdParts, "; ")
unfoldable pub service_command : String → String → List SubModule → String
service_command name host subs =
    join "; " (shell_functions ++ (sub_module_parts host subs ++ docker_part))
  where
    docker_part : List String
    docker_part =
        if name == "appo" || name == "appt"
        then "echo \"===DOCKER===\"; docker ps -a --format '{{.Status}}' 2>/dev/null || echo \"docker_unavailable\""
          ∷ []
        else []
