-- ===== src/Controller/Statuses/Chain.antt =====
-- The coherence of the statuses, carried through `Reconcile`.
use k8s_werf_operator_go.Base.{
  Option, none, some, arith, inl, inr, Bool-cases, List, GoString, lit, ◌≡◌, sym, subst,
}
use k8s_werf_operator_go.Base.Int.{ℤ}
use k8s_werf_operator_go.Base.Result.{Result, ok, err, GoError, error_text, Result-cases}
use k8s_werf_operator_go.Api.{WerfBundle, NamespacedName, validate_cross_namespace_deployment}
use k8s_werf_operator_go.Converge.Builder.{Job}
use k8s_werf_operator_go.Rbac.{validate_service_account_exists}
use k8s_werf_operator_go.Controller.Cluster.{
  Cluster, Library, Env, silently, update, update_status, create_job, get_job, get_service_account,
  list_tags,
}
use k8s_werf_operator_go.Controller.Status.{update_status_syncing}
use k8s_werf_operator_go.Controller.Ensure.{build_job, launch, start_job, ensure_job_exists}
use k8s_werf_operator_go.Controller.Polling.{handle_registry_error, wait_for_tags, apply_tag, poll}
use k8s_werf_operator_go.Controller.Reconcile.{
  validate_service_account, reconcile_validated, reconcile_active, reconcile_deleted,
  reconcile_present, reconcile, finalizer_name, with_finalizers,
}
use k8s_werf_operator_go.Controller.Statuses.{
  IsCoherent, AllCoherent, KeepsStatus, update_status_syncing-AllCoherent,
  update_status_synced-AllCoherent, update_status_failed-AllCoherent,
  monitor_job_completion-AllCoherent, track_job-IsCoherent, exhausted_message-ne-nil,
  update_status_syncing-returns, update-AllCoherent,
}

module _ {S : Type 0} (c : Cluster S) (l : Library) (server : KeepsStatus c) where
  launch-AllCoherent :
      (b : WerfBundle) (built : Option (Result Job)) (e : Env S)
      → IsCoherent b.status
      → AllCoherent e.calls
      → AllCoherent (launch c l b built e).1.calls
  unfolding launch create_job update_status lit
  launch-AllCoherent b none e k h = h
  launch-AllCoherent b (some (err x)) e k h = grind (arith, update_status_failed-AllCoherent)
  launch-AllCoherent b (some (ok job)) e k h =
      grind (arith, update_status_failed-AllCoherent, track_job-IsCoherent)

  start_job-AllCoherent :
      (b : WerfBundle) (tag : GoString) (e : Env S)
      → AllCoherent e.calls
      → AllCoherent (start_job c l b tag e).1.calls
  unfolding start_job build_job
  start_job-AllCoherent b tag e h = elim (Result-cases (update_status_syncing c b tag e).0) [
    | inl (b', q) ↦
        let k : IsCoherent b'.status = update_status_syncing-returns c server b tag e q in
        let h' : AllCoherent (update_status_syncing c b tag e).1.calls =
          update_status_syncing-AllCoherent c b tag e h in
        rw (q, start_job) (launch-AllCoherent b' _ _ k h')
    | inr (x, q) ↦ rw (q, start_job) (update_status_syncing-AllCoherent c b tag e h)
  ]

  ensure_job_exists-AllCoherent :
      (b : WerfBundle) (tag : GoString) (e : Env S)
      → AllCoherent e.calls
      → AllCoherent (ensure_job_exists c l b tag e).1.calls
  unfolding ensure_job_exists get_job
  ensure_job_exists-AllCoherent b tag e h =
      grind (arith, monitor_job_completion-AllCoherent, start_job-AllCoherent)

  handle_registry_error-AllCoherent :
      (b : WerfBundle) (x : GoError) (interval : ℤ) (e : Env S)
      → AllCoherent e.calls
      → AllCoherent (handle_registry_error c l b x interval e).1.calls
  unfolding handle_registry_error
  handle_registry_error-AllCoherent b x interval e h = grind (
    arith, update_status_failed-AllCoherent, update_status_syncing-AllCoherent,
    exhausted_message-ne-nil,
  )

  wait_for_tags-AllCoherent :
      (b : WerfBundle) (interval : ℤ) (e : Env S)
      → AllCoherent e.calls
      → AllCoherent (wait_for_tags c l b interval e).1.calls
  unfolding wait_for_tags
  wait_for_tags-AllCoherent b interval e h = grind (arith, update_status_syncing-AllCoherent)

  apply_tag-AllCoherent :
      (b : WerfBundle) (tag : GoString) (e : Env S)
      → AllCoherent e.calls
      → AllCoherent (apply_tag c l b tag e).1.calls
  unfolding apply_tag
  apply_tag-AllCoherent b tag e h =
      grind (arith, update_status_synced-AllCoherent, ensure_job_exists-AllCoherent)

  poll-AllCoherent :
      (b : WerfBundle) (e : Env S) → AllCoherent e.calls → AllCoherent (poll c l b e).1.calls
  unfolding poll list_tags
  poll-AllCoherent b e h =
      grind
        (arith, handle_registry_error-AllCoherent, wait_for_tags-AllCoherent, apply_tag-AllCoherent)

  validate_service_account-AllCoherent :
      (b : WerfBundle) (e : Env S)
      → AllCoherent e.calls
      → AllCoherent (validate_service_account c l b e).1.calls
  unfolding validate_service_account validate_service_account_exists get_service_account error_text
      lit
  validate_service_account-AllCoherent b e h = grind (arith, update_status_failed-AllCoherent)

  reconcile_validated-AllCoherent :
      (b : WerfBundle) (e : Env S)
      → AllCoherent e.calls
      → AllCoherent (reconcile_validated c l b e).1.calls
  unfolding reconcile_validated
  reconcile_validated-AllCoherent b e h =
      grind (arith, validate_service_account-AllCoherent, poll-AllCoherent)

  reconcile_active-AllCoherent :
      (b : WerfBundle) (e : Env S)
      → IsCoherent b.status
      → AllCoherent e.calls
      → AllCoherent (reconcile_active c l b e).1.calls
  unfolding reconcile_active update_status validate_cross_namespace_deployment error_text lit
  reconcile_active-AllCoherent b e k h =
      grind (arith, update_status_failed-AllCoherent, reconcile_validated-AllCoherent)

  reconcile_deleted-AllCoherent :
      (b : WerfBundle) (e : Env S)
      → AllCoherent e.calls
      → AllCoherent (reconcile_deleted c l b e).1.calls
  unfolding reconcile_deleted update
  reconcile_deleted-AllCoherent b e h = grind arith

  -- The status of a bundle that was read is kept by the update of its finalizers.
  server_update_keeps :
      (request : NamespacedName) (e : Env S) (b b' : WerfBundle) (fs : List GoString)
      → (c.get_bundle request e.state).0 ≡ ok b
      → (update c (with_finalizers b fs) (silently (c.get_bundle request) e).1).0 ≡ ok b'
      → b'.status ≡ b.status
  unfolding update
  server_update_keeps request e b b' fs read q = server.update_keeps request e.state b b' fs read q

  reconcile_present-AllCoherent :
      (request : NamespacedName) (b : WerfBundle) (e : Env S)
      → (c.get_bundle request e.state).0 ≡ ok b
      → IsCoherent b.status
      → AllCoherent e.calls
      → AllCoherent (reconcile_present c l b (silently (c.get_bundle request) e).1).1.calls
  unfolding reconcile_present
  reconcile_present-AllCoherent request b e read k h =
      let fs = l.add_finalizer b.meta.finalizers finalizer_name in
      let held = with_finalizers b fs in
      let e' = (silently (c.get_bundle request) e).1 in
      elim (Bool-cases (l.contains_finalizer b.meta.finalizers finalizer_name)) [
        | inl has ↦ rw has (reconcile_active-AllCoherent b e' k h)
        | inr lacks ↦ elim (Result-cases (update c held e').0) [
          | inl (b', q) ↦
              let kept : b'.status ≡ b.status = server_update_keeps request e b b' fs read q in
              rw (lacks, q, reconcile_present)
                (reconcile_active-AllCoherent b' (update c held e').1
                  (subst IsCoherent (sym kept) k) (update-AllCoherent c held e' h))
          | inr (x, q) ↦ rw (lacks, q, reconcile_present) (update-AllCoherent c held e' h)
        ]
      ]

  -- On a server that keeps statuses as it is given them, if the bundle that a reconciliation reads
  -- has a coherent status, then each status that the reconciliation writes is coherent, whatever
  -- goes wrong on the way.
  pub reconcile-coherent :
      (request : NamespacedName) (e : Env S)
      → ((b : WerfBundle) → (c.get_bundle request e.state).0 ≡ ok b → IsCoherent b.status)
      → AllCoherent e.calls
      → AllCoherent (reconcile c l request e).1.calls
  unfolding reconcile
  reconcile-coherent request e stored h = elim (Result-cases (c.get_bundle request e.state).0) [
    | inl (b, q) ↦ ground (
      arith,
      reconcile_present-AllCoherent request b e q (stored b q) h,
      reconcile_deleted-AllCoherent b (silently (c.get_bundle request) e).1 h,
    )
    | inr (x, q) ↦ rw (q, reconcile) h
  ]
