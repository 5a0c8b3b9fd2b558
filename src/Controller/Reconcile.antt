-- ===== src/Controller/Reconcile.antt =====
-- controllers/werfbundle_controller.go: `Reconcile` and `validateServiceAccount`.
use k8s_werf_operator_go.Base.{
  Option, none, some, List, GoString, lit, is_empty, not, if◌then◌else◌, str_eq,
}
use k8s_werf_operator_go.Base.Result.{ok, err, GoError, message, is_not_found, error_text}
use k8s_werf_operator_go.Api.{
  WerfBundle, NamespacedName, get_target_namespace, validate_cross_namespace_deployment,
}
use k8s_werf_operator_go.Rbac.{validate_service_account_exists}
use k8s_werf_operator_go.Controller.Cluster.{
  Cluster, Library, M, silently, Outcome, failed, no_requeue, update, update_status,
  get_service_account,
}
use k8s_werf_operator_go.Controller.Status.{with_status, update_status_failed}
use k8s_werf_operator_go.Controller.Monitor.{finish}
use k8s_werf_operator_go.Controller.Polling.{poll}

unfoldable pub finalizer_name : GoString
finalizer_name = lit "werf.io/finalizer"

-- The bundle with other finalizers.
abbrev pub with_finalizers : WerfBundle → List GoString → WerfBundle
with_finalizers b fs = record b { meta = record (b.meta) { finalizers = fs } }

module _ {S : Type 0} (c : Cluster S) (l : Library) where
  -- The error where the ServiceAccount cannot be validated, or the status not be updated then.
  unfoldable pub validate_service_account : WerfBundle → M S (Option GoError)
  validate_service_account b e =
      let checked =
        validate_service_account_exists (get_service_account c) b.spec.converge.service_account_name
          (get_target_namespace b.spec.converge b.meta.namespace) e in
      elim checked.0 [
        | none ↦ (none, checked.1)
        | some x ↦
            let reported = update_status_failed c b (error_text x) checked.1 in
            elim reported.0 [
              | err y ↦ (some y, reported.1)
              | ok b' ↦ (some (message (lit "serviceaccount validation failed")), reported.1)
            ]
      ]

  -- From the check of the ServiceAccount on. An error of the check is dropped.
  unfoldable pub reconcile_validated : WerfBundle → M S Outcome
  reconcile_validated b e =
      let checked = validate_service_account b e in
      if not (is_empty b.spec.converge.service_account_name)
      then elim checked.0 [ some x ↦ (no_requeue, checked.1) | none ↦ poll c l b checked.1 ]
      else poll c l b e

  -- From the check of the namespaces on.
  unfoldable pub reconcile_active : WerfBundle → M S Outcome
  reconcile_active b e =
      let target_namespace = get_target_namespace b.spec.converge b.meta.namespace in
      let resolved =
        update_status c
          (with_status b (record (b.status) { resolved_target_namespace = target_namespace })) e in
      elim (validate_cross_namespace_deployment b) [
        | some x ↦
            let reported = update_status_failed c b (error_text x) e in
            (finish reported.0, reported.1)
        | none ↦
            if not (str_eq b.status.resolved_target_namespace target_namespace)
            then elim resolved.0 [
              | err x ↦ (failed x, resolved.1)
              | ok b' ↦ reconcile_validated b' resolved.1
            ]
            else reconcile_validated b e
      ]

  -- A bundle that is being deleted loses the finalizer.
  unfoldable pub reconcile_deleted : WerfBundle → M S Outcome
  reconcile_deleted b e =
      let released =
        update c (with_finalizers b (l.remove_finalizer b.meta.finalizers finalizer_name)) e in
      if l.contains_finalizer b.meta.finalizers finalizer_name
      then (finish released.0, released.1)
      else (no_requeue, e)

  -- A bundle that is there gets the finalizer first.
  unfoldable pub reconcile_present : WerfBundle → M S Outcome
  reconcile_present b e =
      let held =
        update c (with_finalizers b (l.add_finalizer b.meta.finalizers finalizer_name)) e in
      if not (l.contains_finalizer b.meta.finalizers finalizer_name)
      then elim held.0 [ err x ↦ (failed x, held.1) | ok b' ↦ reconcile_active b' held.1 ]
      else reconcile_active b e

  unfoldable pub reconcile : NamespacedName → M S Outcome
  reconcile request e =
      let fetched = silently (c.get_bundle request) e in
      elim fetched.0 [
        | err x ↦ (if is_not_found x then no_requeue else failed x, fetched.1)
        | ok b ↦ elim b.meta.deletion_timestamp [
          | some time ↦ reconcile_deleted b fetched.1
          | none ↦ reconcile_present b fetched.1
        ]
      ]
