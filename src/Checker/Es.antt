-- ===== src/Checker/Es.antt =====
-- inspect/checker/es.go: CheckES. The slice that the source changes in place is returned.
pub mod Severity
use we_term.Checker.Result.{check_each, result}
use we_term.Config.Thresholds.{Thresholds}
use we_term.Model.Component.{EsCluster, EsNode, EsNodeReach}
use we_term.Model.Status.{CheckResult, CheckStatus, notice, ok, warn}
use we_term.Prelude.{List, String, [], if◌then◌else◌, not, ◌&&◌, ◌++◌, ◌==◌, ◌∷◌}
use we_term.Prelude.Int.{ltb_ℤ, pos, ℤ}
use we_term.Prelude.Text.{append, concat, itoa}

-- safeInstance
unfoldable pub safe_instance : String → String
safe_instance s = if s == "" then "unknown" else s

-- A threshold on a number: beyond it a notice with the cell's colour, and OK if not.
unfoldable pub notice_above : ℤ → ℤ → String → String → CheckStatus × List CheckResult
notice_above limit number field value =
    if ltb_ℤ limit number then (notice, result field value notice "" ∷ []) else (ok, [])

module _ {F : Type 0} where
  -- the loop body for a node: heap, then memory
  unfoldable pub check_es_node : String → Thresholds F → EsNode F → List CheckResult × EsNode F
  unfolding notice_above concat itoa
  check_es_node prefix t n =
      let heap =
        notice_above t.es_heap_percent n.heap_percent (concat (prefix ∷ n.ip ∷ ".heap" ∷ []))
          (concat (itoa n.heap_percent ∷ "%" ∷ [])) in
      let ram =
        notice_above t.es_ram_percent n.ram_percent (concat (prefix ∷ n.ip ∷ ".ram" ∷ []))
          (concat (itoa n.ram_percent ∷ "%" ∷ [])) in
      (heap.1 ++ ram.1, record n { heap_status = heap.0; ram_status = ram.0 })

-- the loop body for the reachability of a node
unfoldable pub check_es_reach : String → EsNodeReach → List CheckResult × EsNodeReach
unfolding concat
check_es_reach prefix nr =
    if nr.status == "unreachable"
    then (
      result (concat (prefix ∷ nr.ip ∷ ".reachability" ∷ [])) nr.status warn "" ∷ [],
      record nr { render_status = warn },
    )
    else ([], record nr { render_status = ok })

-- the test on cluster.status; a status that is empty keeps the colour that the cell had
unfoldable pub check_es_health : String → String → CheckStatus → CheckStatus × List CheckResult
unfolding append
check_es_health prefix status old =
    if not (status == "") && not (status == "green")
    then (notice, result (append prefix "cluster_status") status notice "" ∷ [])
    else if status == "green"
    then (ok, [])
    else (old, [])

module _ {F : Type 0} where
  -- checkOneESCluster
  unfoldable pub check_es_cluster : Thresholds F → EsCluster F → List CheckResult × EsCluster F
  check_es_cluster t c =
      let prefix = concat ("es." ∷ safe_instance c.instance_name ∷ "." ∷ []) in
      let health = check_es_health prefix c.status c.health_status in
      let unassigned =
        notice_above t.es_unassigned_shards c.unassigned_shards (append prefix "unassigned_shards")
          (itoa c.unassigned_shards) in
      let pending =
        notice_above (pos 0) c.pending_tasks (append prefix "pending_tasks")
          (itoa c.pending_tasks) in
      let nodes' = check_each (check_es_node prefix t) c.nodes in
      let reach = check_each (check_es_reach prefix) c.node_reachability in
      if not (c.error == "")
      then (
        result (append prefix "cluster_error") c.error warn "" ∷ [],
        record c { health_status = warn },
      )
      else (
        health.1 ++ (unassigned.1 ++ (pending.1 ++ (nodes'.0 ++ reach.0))),
        record c {
          health_status = health.0;
          unassigned_status = unassigned.0;
          pending_status = pending.0;
          nodes = nodes'.1;
          node_reachability = reach.1;
        },
      )

  -- CheckES
  unfoldable pub check_es :
      List (EsCluster F) → Thresholds F → List CheckResult × List (EsCluster F)
  check_es clusters t = check_each (check_es_cluster t) clusters
