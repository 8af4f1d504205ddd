-- ===== src/Collector/Es.antt =====
-- inspect/collector/es.go: the Elasticsearch cluster, asked through curl.
use we_term.Collector.Json.{Fields, json_int, json_str, member, num}
use we_term.Collector.Probe.{class_text, curl_err_class, err_network, err_unknown}
use we_term.Collector.RabbitApi.{CurlFailure}
use we_term.Collector.Redis.{join_host_port}
use we_term.Config.Settings.{Config}
use we_term.Model.Component.{EsCluster, EsNode, EsNodeReach}
use we_term.Model.Float.{FloatOps}
use we_term.Model.Status.{unset}
use we_term.Prelude.{
  Bool, List, Option, String, [], if◌then◌else◌, map, none, not, some, ◌++◌, ◌==◌, ◌∷◌,
}
use we_term.Prelude.Attempt.{Attempt, done, fail}
use we_term.Prelude.Int.{pos}
use we_term.Prelude.Numerals.{atoi_value}
use we_term.Prelude.Search.{contains}
use we_term.Prelude.Text.{concat, itoa}
use we_term.Prelude.Words.{trim_space}

-- curlErrDetail
unfoldable pub curl_err_detail : CurlFailure → String
curl_err_detail e = elim e.failure.exit_code [
  | none ↦ e.failure.text
  | some n ↦
      if not (e.stderr == "") then trim_space e.stderr else concat ("curl exit " ∷ itoa n ∷ [])
]

-- what the goroutine of one address writes to its slot
unfoldable pub node_reach : String → Attempt CurlFailure String → EsNodeReach
node_reach ip (fail e) = record {
  ip = ip;
  status = "unreachable";
  detail = curl_err_detail e;
  render_status = unset;
}
node_reach ip (done out) = record { ip = ip; status = "ok"; detail = ""; render_status = unset }

-- probeES7Nodes, in the order of the addresses; `curl` answers for a URL
unfoldable pub probe_es7_nodes :
    (String → Attempt CurlFailure String) → String → List String → List EsNodeReach
probe_es7_nodes curl port ips =
    map (λ ip. node_reach ip (curl (concat ("http://" ∷ ip ∷ ":" ∷ port ∷ "/" ∷ [])))) ips

-- the first address that is reachable, "" where there is none
unfoldable pub leader_of : List EsNodeReach → String
leader_of [] = ""
leader_of (r ∷ rest) = let later = leader_of rest in if r.status == "ok" then r.ip else later

-- json.Unmarshal into a map and into a slice of maps
pub record EsDecoder (F : Type 0) : Type 0 where
  pub object : String → Option (Fields F)
  pub objects : String → Option (List (Fields F))

module _ {F : Type 0} ⦃fl : FloatOps F⦄ where
  unfoldable pub blank_cluster : String → List EsNodeReach → EsCluster F
  blank_cluster name reach = record {
    instance_name = name;
    cluster_name = "";
    status = "";
    number_of_nodes = pos 0;
    number_of_data_nodes = pos 0;
    active_primary_shards = pos 0;
    active_shards = pos 0;
    unassigned_shards = pos 0;
    pending_tasks = pos 0;
    active_shards_percent = fl.zero_float;
    nodes = [];
    node_reachability = reach;
    error = "";
    error_class = "";
    health_status = unset;
    unassigned_status = unset;
    pending_status = unset;
  }

  -- what is read from _cluster/health
  unfoldable pub with_health : Option (Fields F) → EsCluster F → EsCluster F
  with_health none c = c
  with_health (some h) c = record c {
    cluster_name = json_str (member "cluster_name" h);
    status = json_str (member "status" h);
    number_of_nodes = json_int (member "number_of_nodes" h);
    number_of_data_nodes = json_int (member "number_of_data_nodes" h);
    active_primary_shards = json_int (member "active_primary_shards" h);
    active_shards = json_int (member "active_shards" h);
    unassigned_shards = json_int (member "unassigned_shards" h);
    pending_tasks = json_int (member "number_of_pending_tasks" h);
    active_shards_percent = elim (member "active_shards_percent_as_number" h) [
      | num v ↦ v
      | _ ↦ c.active_shards_percent
    ];
  }

  -- one entry of _cat/nodes
  unfoldable pub es_node : Fields F → EsNode F
  es_node n = record {
    ip = json_str (member "ip" n);
    heap_percent = atoi_value (json_str (member "heap.percent" n));
    ram_percent = atoi_value (json_str (member "ram.percent" n));
    cpu = atoi_value (json_str (member "cpu" n));
    load_1m = (fl.parse_float (json_str (member "load_1m" n))).0;
    load_5m = (fl.parse_float (json_str (member "load_5m" n))).0;
    load_15m = (fl.parse_float (json_str (member "load_15m" n))).0;
    role = if contains (json_str (member "node.role" n)) "m" then "master" else "data";
    heap_status = unset;
    ram_status = unset;
  }

  unfoldable pub with_nodes : Option (List (Fields F)) → EsCluster F → EsCluster F
  with_nodes none c = c
  with_nodes (some ns) c = record c { nodes = c.nodes ++ map es_node ns }

  -- the call of _cat/nodes, whose failure leaves the cluster as it is
  unfoldable pub with_nodes_answer :
      EsDecoder F → Attempt CurlFailure String → EsCluster F → EsCluster F
  with_nodes_answer decoder (fail e) c = c
  with_nodes_answer decoder (done out) c = with_nodes (decoder.objects out) c

  -- esProbe.Run: the cluster it leaves behind
  unfoldable pub es_cluster_of :
      EsDecoder F
      → Attempt CurlFailure String
      → Attempt CurlFailure String
      → EsCluster F
      → EsCluster F
  es_cluster_of decoder (fail e) nodes c = record c {
    error = concat ("curl error: " ∷ e.failure.text ∷ []);
    error_class = class_text (curl_err_class e.failure);
  }
  es_cluster_of decoder (done out) nodes c =
      with_nodes_answer decoder nodes (with_health (decoder.object out) c)

  -- the cluster of the addresses, where curl is there
  unfoldable pub es_cluster :
      EsDecoder F → (String → Attempt CurlFailure String) → Config F → String → EsCluster F
  es_cluster decoder curl cfg first =
      if leader == ""
      then record (blank_cluster (join_host_port first "9200") reach) {
        error = "all nodes unreachable";
        error_class = class_text err_network;
      }
      else es_cluster_of decoder (curl (url "/_cluster/health"))
          (curl (
            url
              "/_cat/nodes?format=json&h=ip,heap.percent,ram.percent,cpu,load_1m,load_5m,load_15m,node.role"))
          (blank_cluster (join_host_port leader "9200") reach)
    where
      auth : String
      auth =
          if not (cfg.creds.es7_password == "")
          then concat ("elastic:" ∷ cfg.creds.es7_password ∷ "@" ∷ [])
          else ""

      reach : List EsNodeReach
      reach = probe_es7_nodes curl "9200" cfg.addresses.es7_ips

      leader : String
      leader = leader_of reach

      url : String → String
      url path = concat ("http://" ∷ auth ∷ leader ∷ ":9200" ∷ path ∷ [])

  -- CollectES
  unfoldable pub collect_es :
      EsDecoder F → Bool → (String → Attempt CurlFailure String) → Config F → List (EsCluster F)
  collect_es decoder has_curl curl cfg = elim cfg.addresses.es7_ips [
    | [] ↦ []
    | first ∷ others ↦
        if not has_curl
        then record (blank_cluster "" []) {
          error = "curl CLI not available";
          error_class = class_text err_unknown;
        }
          ∷ []
        else es_cluster decoder curl cfg first ∷ []
  ]
