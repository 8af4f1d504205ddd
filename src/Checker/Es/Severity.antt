-- ===== src/Checker/Es/Severity.antt =====
-- What CheckES reports at which severity.
use we_term.Checker.Es.{
  check_es, check_es_cluster, check_es_health, check_es_node, check_es_reach, notice_above,
}
use we_term.Checker.Result.Loops.{
  check_each_idem, count_if-append_five, count_if-check_each, count_if-check_each_none,
}
use we_term.Config.Thresholds.{Thresholds}
use we_term.Model.Component.{EsCluster, EsNode, EsNodeReach}
use we_term.Model.Status.{CheckStatus, is_warn}
use we_term.Prelude.{
  Bool, Bool-cases, List, String, arith, count_if, if◌then◌else◌, inl, inr, refl, ◌==◌, ◌≡◌,
}
use we_term.Prelude.Int.{ℤ}

module _ {F : Type 0} (t : Thresholds F) (prefix : String) where
  warns-check_es_node : (n : EsNode F) → count_if is_warn (check_es_node prefix t n).0 ≡ 0
  unfolding check_es_node
  warns-check_es_node n = ground arith

  check_es_node_idem :
      (n : EsNode F)
      → check_es_node prefix t (check_es_node prefix t n).1 ≡ check_es_node prefix t n
  unfolding check_es_node
  check_es_node_idem n = refl

-- the test that makes a node unreachable
abbrev pub is_unreachable : EsNodeReach → Bool
is_unreachable nr = nr.status == "unreachable"

warns-check_es_reach :
    (prefix : String) (nr : EsNodeReach)
    → count_if is_warn (check_es_reach prefix nr).0 ≡ (if is_unreachable nr then 1 else 0)
unfolding check_es_reach
warns-check_es_reach prefix nr = ground arith

check_es_reach_idem :
    (prefix : String) (nr : EsNodeReach)
    → check_es_reach prefix (check_es_reach prefix nr).1 ≡ check_es_reach prefix nr
unfolding check_es_reach
check_es_reach_idem prefix nr = ground arith

warns-check_es_health :
    (prefix status : String) (old : CheckStatus)
    → count_if is_warn (check_es_health prefix status old).1 ≡ 0
unfolding check_es_health
warns-check_es_health prefix status old = ground arith

warns-notice_above :
    (limit number : ℤ) (field value : String)
    → count_if is_warn (notice_above limit number field value).1 ≡ 0
unfolding notice_above
warns-notice_above limit number field value = ground arith

-- How many warnings a cluster gives: one if it could not be read, and if not one for each
-- unreachable node; its health, its shards, its tasks and its memory give none.
warns-check_es_cluster :
    {F : Type 0} (t : Thresholds F) (c : EsCluster F)
    → count_if is_warn (check_es_cluster t c).0
      ≡ (if c.error == "" then count_if is_unreachable c.node_reachability else 1)
unfolding check_es_cluster
warns-check_es_cluster t c = elim (Bool-cases (c.error == "")) [
  | inl read ↦ rw read (
      rw (count_if-append_five is_warn) (
        rw
          (
            warns-check_es_health,
            warns-notice_above,
            warns-notice_above,
            count_if-check_each_none (check_es_node _ t) is_warn (warns-check_es_node t _) c.nodes,
            count_if-check_each (check_es_reach _) is_warn is_unreachable (warns-check_es_reach _)
                c.node_reachability,
          )
          (omega arith)))
  | inr failed ↦ rw failed refl
]

check_es_health_idem :
    (prefix status : String) (old : CheckStatus)
    → check_es_health prefix status (check_es_health prefix status old).0
      ≡ check_es_health prefix status old
unfolding check_es_health
check_es_health_idem prefix status old = ground arith

check_es_cluster_idem :
    {F : Type 0} (t : Thresholds F) (c : EsCluster F)
    → check_es_cluster t (check_es_cluster t c).1 ≡ check_es_cluster t c
unfolding check_es_cluster
check_es_cluster_idem t c = elim (Bool-cases (c.error == "")) [
  | inl read ↦ rw read (
      rw read (
        rw (
          check_es_health_idem,
          check_each_idem (check_es_node _ t) (check_es_node_idem t _) c.nodes,
          check_each_idem (check_es_reach _) (check_es_reach_idem _) c.node_reachability,
        )))
  | inr failed ↦ rw failed (rw failed refl)
]

-- Checking the clusters a second time gives the same results and changes no cell.
check_es_idem :
    {F : Type 0} (clusters : List (EsCluster F)) (t : Thresholds F)
    → check_es (check_es clusters t).1 t ≡ check_es clusters t
unfolding check_es
check_es_idem clusters t = check_each_idem (check_es_cluster t) (check_es_cluster_idem t) clusters
