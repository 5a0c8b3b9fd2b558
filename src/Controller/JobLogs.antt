-- ===== src/Controller/JobLogs.antt =====
-- controllers/werfbundle_controller.go: `storeJobLogs`, and the part that both ends of a Job share:
-- the capture of its logs.
use k8s_werf_operator_go.Base.{
  ℕ, none, some, ◌++◌, leb, if◌then◌else◌, GoString, lit, length, true, false,
}
use k8s_werf_operator_go.Base.Result.{Result, ok, err, is_already_exists}
use k8s_werf_operator_go.Api.{WerfBundle}
use k8s_werf_operator_go.Converge.Logs.{capture_job_logs}
use k8s_werf_operator_go.Controller.Cluster.{
  Cluster, Library, LiveJob, LogConfigMap, M, silently, create_config_map, update_config_map,
}

abbrev pub max_status_logs : ℕ
max_status_logs = 5120

unfoldable pub config_map_name : GoString → GoString
config_map_name job_name = job_name ++ lit "-logs"

-- What the status says of logs in a ConfigMap.
unfoldable pub logs_reference : GoString → GoString
logs_reference job_name = lit "See ConfigMap " ++ config_map_name job_name ++ lit " for full logs"

module _ {S : Type 0} (c : Cluster S) (l : Library) where
  unfoldable pub store_job_logs : WerfBundle → GoString → GoString → M S (Result GoString)
  store_job_logs b job_name logs e =
      let cm : LogConfigMap = record {
        name = config_map_name job_name;
        namespace = b.meta.namespace;
        output = logs;
      } in
      let created = create_config_map c cm e in
      let replaced = update_config_map c cm created.1 in
      if leb (length logs) max_status_logs
      then (ok logs, e)
      else elim (l.set_controller_reference b cm) [
        | some x ↦ (err x, e)
        | none ↦ elim created.0 [
          | none ↦ (ok (logs_reference job_name), created.1)
          | some x ↦ elim (is_already_exists x) [
            | false ↦ (err x, created.1)
            | true ↦ elim replaced.0 [
              | none ↦ (ok (logs_reference job_name), replaced.1)
              | some y ↦ (err y, replaced.1)
            ]
          ]
        ]
      ]

  -- `CaptureJobLogs` and `storeJobLogs`; an error of either leaves the status without the logs.
  unfoldable pub record_job_logs : WerfBundle → LiveJob → M S WerfBundle
  record_job_logs b job e =
      let captured = silently (capture_job_logs c.logs job.name job.namespace) e in
      elim captured.0 [
        | err x ↦ (b, captured.1)
        | ok logs ↦
            let stored = store_job_logs b job.name logs captured.1 in
            elim stored.0 [
              | err x ↦ (b, stored.1)
              | ok status_logs ↦ (
                record b { status = record (b.status) { last_job_logs = status_logs } },
                stored.1,
              )
            ]
      ]
