-- ===== src/Controller/Isolation/Chain.antt =====
-- That a reconciliation concerns the one bundle that it has read, through `Reconcile`.
use k8s_werf_operator_go.Base.{
  Option, none, some, ◌≡◌, ◌∙◌, refl, arith, GoString, inl, inr, ap, subst,
}
use k8s_werf_operator_go.Base.Result.{Result, ok, err, Result-cases}
use k8s_werf_operator_go.Api.{WerfBundle, NamespacedName, get_target_namespace}
use k8s_werf_operator_go.Converge.Builder.{Job}
use k8s_werf_operator_go.Controller.Cluster.{
  Cluster, Library, Env, silently, update, update_status, create_job, get_job, list_tags,
}
use k8s_werf_operator_go.Controller.Status.{update_status_syncing, with_status}
use k8s_werf_operator_go.Controller.Ensure.{
  build_job, launch, start_job, ensure_job_exists, track_job,
}
use k8s_werf_operator_go.Controller.Polling.{apply_tag, poll}
use k8s_werf_operator_go.Controller.Reconcile.{
  reconcile_validated, reconcile_active, reconcile_deleted, reconcile_present, reconcile,
  finalizer_name, with_finalizers,
}
use k8s_werf_operator_go.Controller.Isolation.{
  Identity, identity, target_of, AllConcern, IsOwnJob, KeepsIdentity, build_job-IsOwnJob,
}
use k8s_werf_operator_go.Controller.Isolation.Updates.{
  update_status_syncing-AllConcern, update_status_synced-AllConcern,
  update_status_failed-AllConcern, monitor_job_completion-AllConcern,
  handle_registry_error-AllConcern, wait_for_tags-AllConcern, validate_service_account-AllConcern,
}

module _ {S : Type 0} (c : Cluster S) (l : Library) (server : KeepsIdentity c) (i : Identity) where
  launch-AllConcern :
      (b : WerfBundle) (built : Option (Result Job)) (e : Env S)
      → ((job : Job) → built ≡ some (ok job) → IsOwnJob i job)
      → identity b ≡ i
      → AllConcern i e.calls
      → AllConcern i (launch c l b built e).1.calls
  unfolding launch create_job update_status track_job
  launch-AllConcern b none e k p h = h
  launch-AllConcern b (some (err x)) e k p h = grind (arith, update_status_failed-AllConcern)
  launch-AllConcern b (some (ok job)) e k p h =
      let own : IsOwnJob i job = k job refl in grind (arith, update_status_failed-AllConcern)

  start_job-AllConcern :
      (b : WerfBundle) (tag : GoString) (e : Env S)
      → identity b ≡ i
      → AllConcern i e.calls
      → AllConcern i (start_job c l b tag e).1.calls
  unfolding start_job build_job update_status_syncing update_status
  start_job-AllConcern b tag e p h = elim (Result-cases (update_status_syncing c b tag e).0) [
    | inl (b', q) ↦
        let same : identity b' ≡ i = server.update_status_identity _ b' e.state q ∙ p in
        let announced = update_status_syncing-AllConcern c i b tag e p h in
        let after = (update_status_syncing c b tag e).1 in
        rw (q, start_job)
          (launch-AllConcern b' _ _
            (λ job built.
              subst (λ x. IsOwnJob x job) same (build_job-IsOwnJob c l b' tag after built))
            same announced)
    | inr (x, q) ↦ rw (q, start_job) (update_status_syncing-AllConcern c i b tag e p h)
  ]

  ensure_job_exists-AllConcern :
      (b : WerfBundle) (tag : GoString) (e : Env S)
      → identity b ≡ i
      → AllConcern i e.calls
      → AllConcern i (ensure_job_exists c l b tag e).1.calls
  unfolding ensure_job_exists get_job
  ensure_job_exists-AllConcern b tag e p h =
      let target : get_target_namespace b.spec.converge b.meta.namespace ≡ target_of i =
        ap target_of p in
      grind (arith, monitor_job_completion-AllConcern, start_job-AllConcern)

  apply_tag-AllConcern :
      (b : WerfBundle) (tag : GoString) (e : Env S)
      → identity b ≡ i
      → AllConcern i e.calls
      → AllConcern i (apply_tag c l b tag e).1.calls
  unfolding apply_tag
  apply_tag-AllConcern b tag e p h =
      grind (arith, update_status_synced-AllConcern, ensure_job_exists-AllConcern)

  poll-AllConcern :
      (b : WerfBundle) (e : Env S)
      → identity b ≡ i
      → AllConcern i e.calls
      → AllConcern i (poll c l b e).1.calls
  unfolding poll list_tags
  poll-AllConcern b e p h =
      grind
        (arith, handle_registry_error-AllConcern, wait_for_tags-AllConcern, apply_tag-AllConcern)

  reconcile_validated-AllConcern :
      (b : WerfBundle) (e : Env S)
      → identity b ≡ i
      → AllConcern i e.calls
      → AllConcern i (reconcile_validated c l b e).1.calls
  unfolding reconcile_validated
  reconcile_validated-AllConcern b e p h =
      grind (arith, validate_service_account-AllConcern, poll-AllConcern)

  reconcile_active-AllConcern :
      (b : WerfBundle) (e : Env S)
      → identity b ≡ i
      → AllConcern i e.calls
      → AllConcern i (reconcile_active c l b e).1.calls
  unfolding reconcile_active update_status
  reconcile_active-AllConcern b e p h =
      let target_namespace = get_target_namespace b.spec.converge b.meta.namespace in
      let status = record (b.status) { resolved_target_namespace = target_namespace } in
      elim (Result-cases (update_status c (with_status b status) e).0) [
        | inl (b', q) ↦
            let same : identity b' ≡ i = server.update_status_identity _ b' e.state q ∙ p in
            grind (arith, update_status_failed-AllConcern, reconcile_validated-AllConcern)
        | inr (x, q) ↦
            grind (arith, update_status_failed-AllConcern, reconcile_validated-AllConcern)
      ]

  reconcile_deleted-AllConcern :
      (b : WerfBundle) (e : Env S)
      → identity b ≡ i
      → AllConcern i e.calls
      → AllConcern i (reconcile_deleted c l b e).1.calls
  unfolding reconcile_deleted update
  reconcile_deleted-AllConcern b e p h = ground arith

  reconcile_present-AllConcern :
      (b : WerfBundle) (e : Env S)
      → identity b ≡ i
      → AllConcern i e.calls
      → AllConcern i (reconcile_present c l b e).1.calls
  unfolding reconcile_present update
  reconcile_present-AllConcern b e p h =
      let held = with_finalizers b (l.add_finalizer b.meta.finalizers finalizer_name) in
      elim (Result-cases (update c held e).0) [
        | inl (b', q) ↦
            let same : identity b' ≡ i = server.update_identity held b' e.state q ∙ p in
            grind (arith, reconcile_active-AllConcern)
        | inr (x, q) ↦ grind (arith, reconcile_active-AllConcern)
      ]

module _ {S : Type 0} (c : Cluster S) (l : Library) (server : KeepsIdentity c) where
  -- On a server whose updates answer with the bundle that they were given, by its name, namespace,
  -- uid and spec, a reconciliation concerns the one bundle that it has read: what it updates is that
  -- bundle, with the same spec; a Job that it creates is in the target namespace of the bundle, with
  -- its ServiceAccount, labels with its name, and it as the one owner; the ConfigMaps that it writes
  -- are in the namespace of the bundle; and the Jobs and the ServiceAccount that it reads are those
  -- of the target namespace, the ServiceAccount by the name in the spec.
  pub reconcile-AllConcern :
      (request : NamespacedName) (b : WerfBundle) (e : Env S)
      → (c.get_bundle request e.state).0 ≡ ok b
      → AllConcern (identity b) e.calls
      → AllConcern (identity b) (reconcile c l request e).1.calls
  unfolding reconcile
  reconcile-AllConcern request b e found h = ground (
    arith,
    found,
    reconcile_present-AllConcern c l server (identity b) b (silently (c.get_bundle request) e).1
        refl h,
    reconcile_deleted-AllConcern c l server (identity b) b (silently (c.get_bundle request) e).1
        refl h,
  )
