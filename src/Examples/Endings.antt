-- ===== src/Examples/Endings.antt =====
-- controllers/werfbundle_controller.go: the theorems on Jobs that end, on polls that change nothing
-- and on bundles that are rejected, at the server in memory.
use k8s_werf_operator_go.Base.{[], ◌∷◌, ◌≡◌, false, refl, arith, GoString, lit}
use k8s_werf_operator_go.Base.Int.{pos}
use k8s_werf_operator_go.Base.Result.{ok, err, message}
use k8s_werf_operator_go.Api.{WerfBundle, Phase, get_target_namespace}
use k8s_werf_operator_go.Controller.Cluster.{
  LiveJob, Env, service_account_read, no_requeue, list_tags, get_job,
}
use k8s_werf_operator_go.Controller.Status.{with_status}
use k8s_werf_operator_go.Controller.Monitor.{monitor_job_completion}
use k8s_werf_operator_go.Controller.Ensure.{ensure_job_exists}
use k8s_werf_operator_go.Controller.Reconcile.{reconcile_active, reconcile_validated}
use k8s_werf_operator_go.Controller.SingleJob.{created_jobs}
use k8s_werf_operator_go.Controller.Guards.{account_of}
use k8s_werf_operator_go.Controller.Endings.{Completes, job_end, monitor_job_completion_lem}
use k8s_werf_operator_go.Controller.Superseded.{IsWrittenSynced, ensure_job_exists-skips}
use k8s_werf_operator_go.Controller.Quiet.{IsQuiet}
use k8s_werf_operator_go.Controller.Rejections.{
  IsRejected, reconcile_active-rejects, reconcile_validated-refuses,
}
use k8s_werf_operator_go.Examples.Server.{
  World, server, library, bundle_with, new_bundle, start_with,
}

abbrev v2 : GoString
v2 = b'v' ∷ b'2' ∷ []

-- A Job of which one pod has succeeded.
abbrev finished : LiveJob
finished = record { name = b'j' ∷ []; namespace = b'p' ∷ []; succeeded = pos 1; failed = pos 2 }

-- The bundle while that Job is its active one.
abbrev busy : WerfBundle
busy = with_status new_bundle (record (new_bundle.status) { active_job_name = b'j' ∷ [] })

abbrev start : Env World
start = record (start_with busy) { state = record ((start_with busy).state) { job = ok finished } }

monitor_job_completion_lem_example :
    let (outcome, e') = monitor_job_completion server library busy finished v2 start in
    Completes (job_end finished) outcome start e'
monitor_job_completion_lem_example =
    monitor_job_completion_lem server library busy finished v2 start

ensure_job_exists-skips_example :
    IsWrittenSynced v2 (ensure_job_exists server library busy v2 start).1.calls
    × (created_jobs (ensure_job_exists server library busy v2 start).1.calls
        ≡ created_jobs start.calls)
unfolding get_job
ensure_job_exists-skips_example =
    ensure_job_exists-skips server library busy v2 start (λ e. ground arith) refl refl

-- The bundle once `v2` is applied.
abbrev synced : WerfBundle
synced =
    with_status new_bundle
      (record (new_bundle.status) { phase = Phase.synced; last_applied_tag = v2 })

-- The bundle has nothing to do.
synced-IsQuiet : IsQuiet server library synced start
unfolding list_tags lit
synced-IsQuiet = IsQuiet.idle refl refl refl refl

-- A bundle for the namespace `p` that names no ServiceAccount.
abbrev foreign : WerfBundle
foreign = bundle_with [] (b'p' ∷ [])

reconcile_active-rejects_example :
    IsRejected foreign [] (reconcile_active server library foreign (start_with foreign)).1.calls
unfolding get_target_namespace lit
reconcile_active-rejects_example =
    reconcile_active-rejects server library foreign (start_with foreign) (λ e. ground arith) refl

-- A server that knows no ServiceAccount.
abbrev strange : Env World
strange = record start { state = record (start.state) { account = err (message (b'x' ∷ [])) } }

reconcile_validated-refuses_example :
    ((reconcile_validated server library new_bundle strange).0 ≡ no_requeue)
    × IsRejected new_bundle
        (service_account_read
            (account_of new_bundle.spec.converge.service_account_name
              (get_target_namespace new_bundle.spec.converge new_bundle.meta.namespace))
            false
          ∷ [])
        (reconcile_validated server library new_bundle strange).1.calls
unfolding lit
reconcile_validated-refuses_example =
    reconcile_validated-refuses server library new_bundle strange (λ e. ground arith) refl
