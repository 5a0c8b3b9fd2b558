-- ===== src/Controller/SingleJob/Requests.antt =====
-- A whole reconciliation deploys no tag that the status names as applied.
use k8s_werf_operator_go.Base.{◌≡◌, inl, inr, refl, str_eq, Bool-cases, Option-cases, subst}
use k8s_werf_operator_go.Base.Result.{ok, Result-cases}
use k8s_werf_operator_go.Api.{
  WerfBundle, WerfBundleStatus, NamespacedName, get_target_namespace,
  validate_cross_namespace_deployment,
}
use k8s_werf_operator_go.Controller.Cluster.{Cluster, Library, Env, silently, update, update_status}
use k8s_werf_operator_go.Controller.Status.{with_status}
use k8s_werf_operator_go.Controller.Reconcile.{
  reconcile_validated, reconcile_active, reconcile_present, reconcile, finalizer_name,
  with_finalizers,
}
use k8s_werf_operator_go.Controller.Statuses.{KeepsStatus}
use k8s_werf_operator_go.Controller.SingleJob.{
  created_jobs, update_status_failed-jobs, reconcile_deleted-jobs,
}
use k8s_werf_operator_go.Controller.SingleJob.NewTags.{AddsNew, reconcile_validated-AddsNew}

module _ {S : Type 0} (c : Cluster S) (l : Library) (server : KeepsStatus c) where
  reconcile_active-AddsNew :
      (b : WerfBundle) (e : Env S)
      → AddsNew b.status.last_applied_tag (created_jobs e.calls) (reconcile_active c l b e).1.calls
  unfolding reconcile_active update_status
  reconcile_active-AddsNew b e =
      let target_namespace = get_target_namespace b.spec.converge b.meta.namespace in
      let status = record (b.status) { resolved_target_namespace = target_namespace } in
      elim (Option-cases (validate_cross_namespace_deployment b)) [
        | inr (x, q) ↦ rw (q, reconcile_active) (inl (update_status_failed-jobs c l b _ e))
        | inl q ↦ elim (Bool-cases (str_eq b.status.resolved_target_namespace target_namespace)) [
          | inl same ↦ rw (q, same, reconcile_active) (reconcile_validated-AddsNew c l b e)
          | inr other ↦ elim (Result-cases (update_status c (with_status b status) e).0) [
            | inl (b', r) ↦
                let after = (update_status c (with_status b status) e).1 in
                let kept : b'.status ≡ status = server.update_status_keeps _ b' e.state r in
                rw (q, other, reconcile_active, r)
                  (subst
                    (λ (st : WerfBundleStatus).
                      AddsNew st.last_applied_tag (created_jobs e.calls)
                        (reconcile_validated c l b' after).1.calls)
                    kept (reconcile_validated-AddsNew c l b' after))
            | inr (x, r) ↦ rw (q, other, reconcile_active, r) (inl refl)
          ]
        ]
      ]

  -- A bundle that is there.
  reconcile_present-AddsNew :
      (request : NamespacedName) (b : WerfBundle) (e : Env S)
      → (c.get_bundle request e.state).0 ≡ ok b
      → AddsNew b.status.last_applied_tag
          (created_jobs e.calls)
          (reconcile_present c l b (silently (c.get_bundle request) e).1).1.calls
  unfolding reconcile_present update
  reconcile_present-AddsNew request b e found =
      let fs = l.add_finalizer b.meta.finalizers finalizer_name in
      let held = with_finalizers b fs in
      let e' = (silently (c.get_bundle request) e).1 in
      elim (Bool-cases (l.contains_finalizer b.meta.finalizers finalizer_name)) [
        | inl has ↦ rw (has, reconcile_present) (reconcile_active-AddsNew b e')
        | inr lacks ↦ elim (Result-cases (update c held e').0) [
          | inl (b', q) ↦
              let kept : b'.status ≡ b.status =
                server.update_keeps request e.state b b' fs found q in
              rw (lacks, q, reconcile_present)
                (subst
                  (λ (st : WerfBundleStatus).
                    AddsNew st.last_applied_tag (created_jobs e.calls)
                      (reconcile_active c l b' (update c held e').1).1.calls)
                  kept (reconcile_active-AddsNew b' (update c held e').1))
          | inr (x, q) ↦ rw (lacks, q, reconcile_present) (inl refl)
        ]
      ]

  -- On a server that keeps statuses as it is given them, a reconciliation of a bundle that can be
  -- read makes no call that creates a Job, or it deploys a tag that is not the one that the status of
  -- the bundle names as applied. Its last three calls are then a status update that names the tag as
  -- applied, if the tag is not empty, the creation of a Job with the labels of the tag, and a status
  -- update; none of its calls before these creates a Job.
  pub reconcile-AddsNew :
      (request : NamespacedName) (b : WerfBundle) (e : Env S)
      → (c.get_bundle request e.state).0 ≡ ok b
      → AddsNew b.status.last_applied_tag (created_jobs e.calls) (reconcile c l request e).1.calls
  unfolding reconcile
  reconcile-AddsNew request b e found =
      let e' = (silently (c.get_bundle request) e).1 in
      elim (Option-cases b.meta.deletion_timestamp) [
        | inl q ↦ rw (found, q, reconcile) (reconcile_present-AddsNew request b e found)
        | inr (time, q) ↦ rw (found, q, reconcile) (inl (reconcile_deleted-jobs c l b e'))
      ]
