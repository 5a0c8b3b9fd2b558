-- ===== src/Converge/Logs.antt =====
-- internal/converge/logs.go: the logs of a Job's pods.
pub mod Truncation
pub mod Capture
use k8s_werf_operator_go.Base.{
  ℕ, Bool, true, false, Option, none, some, List, [], ◌∷◌, ◌++◌, ◌-◌, ◌*◌, ltb, if◌then◌else◌,
  GoString, lit, length, drop, is_empty,
}
use k8s_werf_operator_go.Base.Result.{Result, ok, err, GoError, message, wrapped, Eff}

-- Of a pod, its name and the names of its containers.
pub record Pod : Type 0 where
  pub name : GoString
  pub containers : List GoString

-- What this package calls of Kubernetes: the pods of a namespace with the label of a Job, and the
-- log of a container, opened and then read.
pub record LogClient (S : Type 0) : Type 0 where
  pub list_pods : GoString → GoString → Eff S (Result (List Pod))
  pub stream_logs : GoString → GoString → GoString → ℕ → Eff S (Result (Result GoString))

abbrev pub tail_lines : ℕ
tail_lines = 500

-- `maxLogSize`
abbrev pub max_log_size : ℕ
max_log_size = 1024 * 1024

unfoldable pub truncation_notice : GoString
truncation_notice = lit "... (logs truncated - output exceeds 1MB) ...\n"

-- `strings.Join(logs, sep)`
unfoldable pub join : List GoString → GoString → GoString
join [] sep = []
join (s ∷ []) sep = s
join (s ∷ t ∷ l) sep = s ++ (sep ++ join (t ∷ l) sep)

-- The truncation at the end of `CaptureJobLogs`.
unfoldable pub truncate_logs : GoString → GoString
truncate_logs combined =
    if ltb max_log_size (length combined)
    then truncation_notice ++ drop (length combined - max_log_size) combined
    else combined

module _ {S : Type 0} (c : LogClient S) where
  unfoldable pub get_pod_logs : Pod → GoString → GoString → Eff S (Result GoString)
  get_pod_logs pod container namespace s =
      let (r, s') = c.stream_logs namespace pod.name container tail_lines s in
      elim r [
        | err e ↦ (
          err (wrapped (lit "failed to get logs from pod " ++ namespace ++ lit "/" ++ pod.name) e),
          s',
        )
        | ok (err e) ↦ (
          err (wrapped (lit "failed to read logs from pod " ++ namespace ++ lit "/" ++ pod.name) e),
          s',
        )
        | ok (ok logs) ↦ (ok logs, s')
      ]

  -- What one pod adds: the log of its first container, where it can be read and is not empty.
  unfoldable pub append_logs : List GoString → Result GoString → List GoString
  append_logs all_logs (err e) = all_logs
  append_logs all_logs (ok logs) = if is_empty logs then all_logs else all_logs ++ logs ∷ []

  unfoldable pub collect_pod :
      GoString → Pod → List GoString → List GoString → Eff S (List GoString)
  collect_pod namespace pod [] all_logs s = (all_logs, s)
  collect_pod namespace pod (container ∷ containers) all_logs s =
      let (r, s') = get_pod_logs pod container namespace s in (append_logs all_logs r, s')

  -- The loop over the pods.
  unfoldable pub collect_logs : GoString → List Pod → List GoString → Eff S (List GoString)
  collect_logs namespace [] all_logs s = (all_logs, s)
  collect_logs namespace (pod ∷ pods) all_logs s =
      let (all_logs', s') = collect_pod namespace pod pod.containers all_logs s in
      collect_logs namespace pods all_logs' s'

  unfoldable pub capture_job_logs : GoString → GoString → Eff S (Result GoString)
  capture_job_logs job_name namespace s =
      let (r, s') = c.list_pods namespace job_name s in
      elim r [
        | err e ↦ (err (wrapped (lit "failed to list pods for job") e), s')
        | ok [] ↦ (err (message (lit "no pods found for job " ++ job_name)), s')
        | ok (pod ∷ pods) ↦
            let (all_logs, s'') = collect_logs namespace (pod ∷ pods) [] s' in
            elim all_logs [
              | [] ↦ (err (message (lit "no logs found for job " ++ job_name)), s'')
              | logs ∷ rest ↦ (ok (truncate_logs (join (logs ∷ rest) (lit "\n---\n"))), s'')
            ]
      ]
