-- ===== src/Collector/Mongo.antt =====
-- inspect/collector/mongo.go: the replica set, asked through the MongoDB driver. `redact` is
-- RedactDSN, which a regular expression defines, and `escape` is url.QueryEscape.
use we_term.Collector.Probe.{Failure, class_text, classify_mongo}
use we_term.Config.Settings.{Config}
use we_term.Model.Component.{MongoCluster, MongoMember}
use we_term.Model.Status.{unset}
use we_term.Prelude.{List, String, [], if◌then◌else◌, is_empty, map, ◌∷◌}
use we_term.Prelude.Attempt.{Attempt, done, fail}
use we_term.Prelude.Fields.{join}
use we_term.Prelude.Int.{ℤ}
use we_term.Prelude.Text.{append, concat}

-- the Members of replSetGetStatus, as the driver decodes them
pub record RsMember : Type 0 where
  pub name : String
  pub health : ℤ
  pub state_str : String
  pub uptime : ℤ
  pub syncing_to : String
  pub sync_source_host : String

-- mongo.Connect, and RunCommand with Decode, for a URI
pub record MongoDriver : Type 0 where
  pub connect : String → Attempt Failure (Unit {0})
  pub rs_status : String → Attempt Failure (List RsMember)

unfoldable pub mongo_member : RsMember → MongoMember
mongo_member m = record {
  name = m.name;
  health = m.health;
  state_str = m.state_str;
  uptime = m.uptime;
  syncing_to = m.syncing_to;
  sync_source_host = m.sync_source_host;
  health_status = unset;
}

unfoldable pub failed_cluster : (String → String) → String → String → Failure → MongoCluster
failed_cluster redact name what e = record {
  instance_name = name;
  members = [];
  error = append what (redact e.text);
  error_class = class_text (classify_mongo e);
}

-- mongoProbe.Run: the cluster it leaves behind
unfoldable pub mongo_cluster_of :
    (String → String)
    → String
    → Attempt Failure (Unit {0})
    → Attempt Failure (List RsMember)
    → MongoCluster
mongo_cluster_of redact name (fail e) status = failed_cluster redact name "mongo connect error: " e
mongo_cluster_of redact name (done u) (fail e) =
    failed_cluster redact name "replSetGetStatus error: " e
mongo_cluster_of redact name (done u) (done members) = record {
  instance_name = name;
  members = map mongo_member members;
  error = "";
  error_class = "";
}

-- CollectMongo
unfoldable pub collect_mongo :
    {F : Type 0}
    → (String → String)
    → (String → String)
    → MongoDriver
    → Config F
    → List MongoCluster
collect_mongo redact escape driver cfg =
    if is_empty cfg.addresses.mongo_db_ips
    then []
    else mongo_cluster_of redact name (driver.connect uri) (driver.rs_status uri) ∷ []
  where
    host_list : String
    host_list =
        join ","
          (map (λ ip. concat (ip ∷ ":" ∷ cfg.ports.mongo_db_port ∷ [])) cfg.addresses.mongo_db_ips)

    name : String
    name = concat (host_list ∷ "/?replicaSet=" ∷ cfg.ports.mongo_rs_name ∷ [])

    uri : String
    uri = concat (
        "mongodb://"
        ∷ escape cfg.creds.mongodb_user
        ∷ ":"
        ∷ escape cfg.creds.mongodb_password
        ∷ "@"
        ∷ host_list
        ∷ "/?replicaSet="
        ∷ escape cfg.ports.mongo_rs_name
        ∷ "&authSource=admin"
        ∷ [])
