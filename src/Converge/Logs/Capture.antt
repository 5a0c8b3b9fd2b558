-- ===== src/Converge/Logs/Capture.antt =====
-- What the captured logs are made of.
use k8s_werf_operator_go.Base.{
  List, [], ◌∷◌, ◌++◌, ◌≡◌, ◌≢◌, ◌↔◌, refl, arith, GoString, lit, append_assoc, append-nil, sym, ap,
  ◌∙◌,
}
use k8s_werf_operator_go.Base.Result.{Result, ok, err, Eff}
use k8s_werf_operator_go.Converge.Logs.{
  Pod, LogClient, get_pod_logs, append_logs, collect_pod, collect_logs, capture_job_logs,
  truncate_logs, join,
}

-- What an answer contributes: the log, where it can be read and is not empty.
abbrev pub contribution : Result GoString → List GoString
contribution (err e) = []
contribution (ok []) = []
contribution (ok (c ∷ log)) = (c ∷ log) ∷ []

module _ {S : Type 0} (c : LogClient S) (namespace : GoString) where
  -- What one pod contributes: the log of the first of its containers.
  abbrev pub pod_logs : Pod → List GoString → Eff S (List GoString)
  pod_logs pod [] s = ([], s)
  pod_logs pod (first ∷ others) s =
      let (r, s') = get_pod_logs c pod first namespace s in (contribution r, s')

  -- What the pods contribute, asked one after the other.
  abbrev pub job_logs : List Pod → Eff S (List GoString)
  job_logs [] s = ([], s)
  job_logs (pod ∷ pods) s =
      let (own, s') = pod_logs pod pod.containers s in
      let (others, s'') = job_logs pods s' in (own ++ others, s'')

  append_logs-contribution :
      (before : List GoString) (r : Result GoString)
      → append_logs c before r ≡ before ++ contribution r
  unfolding append_logs
  append_logs-contribution before (err e) = sym (append-nil before)
  append_logs-contribution before (ok []) = sym (append-nil before)
  append_logs-contribution before (ok (x ∷ log)) = refl

  collect_pod-eq-pod_logs :
      (pod : Pod) (containers before : List GoString) (s : S)
      → collect_pod c namespace pod containers before s
        ≡ (before ++ (pod_logs pod containers s).0, (pod_logs pod containers s).1)
  unfolding collect_pod
  collect_pod-eq-pod_logs pod [] before s = ap (λ l. (l, s)) (sym (append-nil before))
  collect_pod-eq-pod_logs pod (first ∷ others) before s =
      let (r, s') = get_pod_logs c pod first namespace s in
      ap (λ l. (l, s')) (append_logs-contribution before r)

  collect_logs-eq-job_logs :
      (pods : List Pod) (before : List GoString) (s : S)
      → collect_logs c namespace pods before s
        ≡ (before ++ (job_logs pods s).0, (job_logs pods s).1)
  unfolding collect_logs
  collect_logs-eq-job_logs [] before s = ap (λ l. (l, s)) (sym (append-nil before))
  collect_logs-eq-job_logs (pod ∷ pods) before s =
      rw (collect_pod-eq-pod_logs pod pod.containers before s) (
        collect_logs-eq-job_logs pods (before ++ (pod_logs pod pod.containers s).0)
          (pod_logs pod pod.containers s).1
        ∙ ap (λ l. (l, (job_logs pods (pod_logs pod pod.containers s).1).1))
            (append_assoc before _ _))

  none_listed :
      (job_name : GoString) (s : S)
      → (c.list_pods namespace job_name s).0 ≡ ok []
      → (out : GoString) → (capture_job_logs c job_name namespace s).0 ≢ ok out
  unfolding capture_job_logs
  none_listed job_name s h out q = ground arith

  captured :
      (job_name : GoString) (s : S) {pod : Pod} {pods : List Pod}
      → (c.list_pods namespace job_name s).0 ≡ ok (pod ∷ pods)
      → (out : GoString)
      → let logs = (job_logs (pod ∷ pods) (c.list_pods namespace job_name s).1).0 in
        ((capture_job_logs c job_name namespace s).0 ≡ ok out)
        ↔ ((logs ≢ []) × (out ≡ truncate_logs (join logs (lit "\n---\n"))))
  unfolding capture_job_logs
  captured job_name s {pod} {pods} h out =
      let e = collect_logs-eq-job_logs (pod ∷ pods) [] (c.list_pods namespace job_name s).1 in
      rw (h, capture_job_logs) (rw e (ground arith))

  -- Where the pods of a Job can be listed, a capture succeeds exactly if some pod has logs, and
  -- answers with those of the first container of each pod whose logs can be read and are not empty,
  -- in the order of the pods, joined by a separator and truncated.
  pub capture_job_logs-ok_iff :
      (job_name : GoString) (s : S) {pods : List Pod} (out : GoString)
      → (c.list_pods namespace job_name s).0 ≡ ok pods
      → let logs = (job_logs pods (c.list_pods namespace job_name s).1).0 in
        ((capture_job_logs c job_name namespace s).0 ≡ ok out)
        ↔ ((logs ≢ []) × (out ≡ truncate_logs (join logs (lit "\n---\n"))))
  capture_job_logs-ok_iff job_name s {pods} out h = of_pods pods h
    where
      of_pods :
          (l : List Pod)
          → (c.list_pods namespace job_name s).0 ≡ ok l
          → let logs = (job_logs l (c.list_pods namespace job_name s).1).0 in
            ((capture_job_logs c job_name namespace s).0 ≡ ok out)
            ↔ ((logs ≢ []) × (out ≡ truncate_logs (join logs (lit "\n---\n"))))
      of_pods [] q = (λ r. absurd (none_listed job_name s q out r), λ r. absurd (r.0 refl))
      of_pods (pod ∷ pods) q = captured job_name s q out
