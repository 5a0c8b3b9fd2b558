-- ===== src/Controller/Invariants.antt =====
-- What stays true whatever the reconciler does, as long as each of its calls keeps it true.
use k8s_werf_operator_go.Base.{ℕ, suc, Option, none, some, List, [], ◌∷◌, arith, GoString}
use k8s_werf_operator_go.Base.Maps.{GoMap}
use k8s_werf_operator_go.Base.Result.{Result, ok, err}
use k8s_werf_operator_go.Api.{WerfBundle, NamespacedName, ValuesSource}
use k8s_werf_operator_go.Values.Fetch.{ValuesClient, fetch_config_map, fetch_secret}
use k8s_werf_operator_go.Values.Resolver.{resolve_values, resolve_loop, fetch_refs}
use k8s_werf_operator_go.Converge.Builder.{Builder, Job}
use k8s_werf_operator_go.Converge.Logs.{
  LogClient, Pod, get_pod_logs, collect_pod, collect_logs, capture_job_logs, tail_lines,
}
use k8s_werf_operator_go.Controller.Cluster.{
  Cluster, Call, Env, LogConfigMap, silently, update, update_status, get_job, create_job,
  get_service_account, create_config_map, update_config_map, list_tags,
}
pub mod Chain

-- Calls of the API that only read keep what is known of the state outside.
pub record ReadsKeep {S : Type 0} (values : ValuesClient S) (logs : LogClient S) (P : S → Type 0)
    : Type 0 where
  pub get_config_map_keeps : (k : NamespacedName) (s : S) → P s → P (values.get_config_map k s).1
  pub get_secret_keeps : (k : NamespacedName) (s : S) → P s → P (values.get_secret k s).1
  pub list_pods_keeps :
      (namespace name : GoString) (s : S) → P s → P (logs.list_pods namespace name s).1
  pub stream_logs_keeps :
      (namespace name container : GoString) (lines : ℕ) (s : S)
      → P s
      → P (logs.stream_logs namespace name container lines s).1

module _ {S : Type 0} {values : ValuesClient S} {logs : LogClient S} {P : S → Type 0}
    (r : ReadsKeep values logs P) where
  module _ (parse_yaml : GoString → Result (GoMap GoString))
      (bundle_namespace target_namespace : GoString) where
    fetch_config_map-keeps :
        (name : GoString) (s : S)
        → P s
        → P (fetch_config_map parse_yaml values name bundle_namespace target_namespace s).1
    unfolding fetch_config_map
    fetch_config_map-keeps name s h = grind (arith, r.get_config_map_keeps)

    fetch_secret-keeps :
        (name : GoString) (s : S)
        → P s
        → P (fetch_secret parse_yaml values name bundle_namespace target_namespace s).1
    unfolding fetch_secret
    fetch_secret-keeps name s h = grind (arith, r.get_secret_keeps)

    fetch_refs-keeps :
        (i : ℕ) (config_map_ref secret_ref : Option GoString) (s : S)
        → P s
        → P
            (fetch_refs parse_yaml values bundle_namespace target_namespace i config_map_ref
              secret_ref s).1
    unfolding fetch_refs
    fetch_refs-keeps i (some name) secret_ref s h = grind (arith, fetch_config_map-keeps)
    fetch_refs-keeps i none (some name) s h = grind (arith, fetch_secret-keeps)
    fetch_refs-keeps i none none s h = h

    resolve_loop-keeps :
        (i : ℕ) (sources : List ValuesSource) (all_maps : List (GoMap GoString)) (s : S)
        → P s
        → P
            (resolve_loop parse_yaml values bundle_namespace target_namespace i sources all_maps
              s).1
    unfolding resolve_loop
    resolve_loop-keeps i [] all_maps s h = h
    resolve_loop-keeps i (source ∷ sources) all_maps s h =
        grind (arith, fetch_refs-keeps, resolve_loop-keeps (suc i) sources)

    pub resolve_values-keeps :
        (sources : List ValuesSource) (s : S)
        → P s
        → P (resolve_values parse_yaml values bundle_namespace target_namespace sources s).1
    unfolding resolve_values
    resolve_values-keeps sources s h = resolve_loop-keeps 0 sources [] s h

  module _ (namespace : GoString) where
    collect_pod-keeps :
        (pod : Pod) (containers all_logs : List GoString) (s : S)
        → P s
        → P (collect_pod logs namespace pod containers all_logs s).1
    unfolding collect_pod get_pod_logs
    collect_pod-keeps pod [] all_logs s h = h
    collect_pod-keeps pod (container ∷ containers) all_logs s h = grind (arith, r.stream_logs_keeps)

    collect_logs-keeps :
        (pods : List Pod) (all_logs : List GoString) (s : S)
        → P s
        → P (collect_logs logs namespace pods all_logs s).1
    unfolding collect_logs
    collect_logs-keeps [] all_logs s h = h
    collect_logs-keeps (pod ∷ pods) all_logs s h =
        collect_logs-keeps pods _ _ (collect_pod-keeps pod pod.containers all_logs s h)

    pub capture_job_logs-keeps :
        (job_name : GoString) (s : S) → P s → P (capture_job_logs logs job_name namespace s).1
    unfolding capture_job_logs
    capture_job_logs-keeps job_name s h = grind (arith, r.list_pods_keeps, collect_logs-keeps)

-- Every call of the reconciler keeps what is said of an environment.
pub record Keeps {S : Type 0} (c : Cluster S) (I : Env S → Type 0) : Type 0 where
  pub reads_keep :
      (calls : List Call) → ReadsKeep c.values c.logs (λ s. I (record { state = s; calls = calls }))
  pub get_bundle_keeps : (k : NamespacedName) (e : Env S) → I e → I (silently (c.get_bundle k) e).1
  pub now_keeps : (e : Env S) → I e → I (silently c.now e).1
  pub rand_read_keeps : (e : Env S) → I e → I (silently c.rand_read e).1
  pub rand_intn_keeps : (e : Env S) → I e → I (silently c.rand_intn e).1
  pub update_keeps : (b : WerfBundle) (e : Env S) → I e → I (update c b e).1
  pub update_status_keeps : (b : WerfBundle) (e : Env S) → I e → I (update_status c b e).1
  pub get_job_keeps : (k : NamespacedName) (e : Env S) → I e → I (get_job c k e).1
  pub create_job_keeps : (j : Job) (e : Env S) → I e → I (create_job c j e).1
  pub get_service_account_keeps :
      (k : NamespacedName) (e : Env S) → I e → I (get_service_account c k e).1
  pub create_config_map_keeps : (m : LogConfigMap) (e : Env S) → I e → I (create_config_map c m e).1
  pub update_config_map_keeps : (m : LogConfigMap) (e : Env S) → I e → I (update_config_map c m e).1
  pub list_tags_keeps :
      (url last_etag : GoString) (e : Env S) → I e → I (list_tags c url last_etag e).1
