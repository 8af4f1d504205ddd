-- ===== src/Checker/Mongo.antt =====
-- inspect/checker/mongo.go: CheckMongo. inspect/checker/bkdeps.go: CheckBKDeps.
use we_term.Checker.Es.{safe_instance}
use we_term.Checker.Result.{check_each, result}
use we_term.Model.Component.{MongoCluster, MongoMember}
use we_term.Model.RabbitMq.{BkMonitorSection, DependencyResult}
use we_term.Model.Status.{CheckResult, notice, ok, unset, warn}
use we_term.Prelude.{List, Option, String, [], if◌then◌else◌, none, not, some, ◌==◌, ◌∷◌}
use we_term.Prelude.Int.{eqb_ℤ, pos}
use we_term.Prelude.Text.{append, concat, itoa}

unfoldable pub check_member : String → MongoMember → List CheckResult × MongoMember
unfolding concat itoa
check_member prefix m =
    if not (eqb_ℤ m.health (pos 1))
    then (
      result (concat (prefix ∷ m.name ∷ ".health" ∷ [])) (itoa m.health) notice "" ∷ [],
      record m { health_status = notice },
    )
    else ([], record m { health_status = ok })

-- the loop body of CheckMongo: a cluster with an error is not looked into
unfoldable pub check_mongo_cluster : MongoCluster → List CheckResult × MongoCluster
check_mongo_cluster c =
    let prefix = concat ("mongo." ∷ safe_instance c.instance_name ∷ "." ∷ []) in
    let members' = check_each (check_member prefix) c.members in
    if not (c.error == "")
    then (result (append prefix "error") c.error warn "" ∷ [], c)
    else (members'.0, record c { members = members'.1 })

-- CheckMongo
unfoldable pub check_mongo : List MongoCluster → List CheckResult × List MongoCluster
check_mongo clusters = check_each check_mongo_cluster clusters

-- the switch of CheckBKDeps on the status of a dependency
unfoldable pub check_dependency : DependencyResult → List CheckResult × DependencyResult
unfolding concat
check_dependency d =
    let field = concat ("bkdeps." ∷ d.item ∷ ".status" ∷ []) in
    if d.status == "ok"
    then (result field d.status ok "" ∷ [], record d { render_status = ok })
    else if d.status == "skip"
    then ([], record d { render_status = unset })
    else (result field d.status notice "" ∷ [], record d { render_status = notice })

-- CheckBKDeps; `none` is a nil section
unfoldable pub check_bk_deps : Option BkMonitorSection → List CheckResult × Option BkMonitorSection
check_bk_deps none = ([], none)
check_bk_deps (some s) =
    let deps = check_each check_dependency s.dependencies in
    (deps.0, some (record s { dependencies = deps.1 }))
