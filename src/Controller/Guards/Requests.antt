-- ===== src/Controller/Guards/Requests.antt =====
-- What the reconciler has established when it creates a Job, for a whole reconciliation.

use k8s_werf_operator_go.Base.{
  [], ◌≡◌, arith, GoString, inl, inr, is_empty, Bool-cases, true, Option-cases,
}
use k8s_werf_operator_go.Api.{WerfBundle, NamespacedName}
use k8s_werf_operator_go.Controller.Cluster.{Cluster, Library, Env, update, update_status}
use k8s_werf_operator_go.Controller.Reconcile.{
  validate_service_account, reconcile_validated, reconcile_active, reconcile_deleted,
  reconcile_present, reconcile,
}
use k8s_werf_operator_go.Controller.Guards.{AllGuarded, KeepsSpec}
use k8s_werf_operator_go.Controller.Guards.Updates.{
  update_status_failed-AllGuarded, validate_service_account-AllGuarded,
}
use k8s_werf_operator_go.Controller.Guards.Chain.{
  poll-AllGuarded, validate_service_account-HasAccount,
}

is_empty-nil : (s : GoString) → is_empty s ≡ true → s ≡ []
is_empty-nil s h = ground arith

module _ {S : Type 0} (c : Cluster S) (l : Library) (server : KeepsSpec c) where
  reconcile_validated-AllGuarded :
      (b : WerfBundle) (e : Env S)
      → AllGuarded e.calls
      → AllGuarded (reconcile_validated c l b e).1.calls
  unfolding reconcile_validated
  reconcile_validated-AllGuarded b e h =
      let checked : AllGuarded (validate_service_account c l b e).1.calls =
        validate_service_account-AllGuarded c l b e h in
      elim (Bool-cases (is_empty b.spec.converge.service_account_name)) [
        | inl unnamed ↦
            rw (unnamed, reconcile_validated)
              (poll-AllGuarded c l server b e
                (λ named.
                  absurd (named (is_empty-nil b.spec.converge.service_account_name unnamed)))
                h)
        | inr named ↦ elim (Option-cases (validate_service_account c l b e).0) [
          | inl p ↦
              rw (named, reconcile_validated, p)
                (poll-AllGuarded c l server b (validate_service_account c l b e).1
                  (validate_service_account-HasAccount c l b e p) checked)
          | inr (x, p) ↦ rw (named, reconcile_validated, p) checked
        ]
      ]

  reconcile_active-AllGuarded :
      (b : WerfBundle) (e : Env S)
      → AllGuarded e.calls
      → AllGuarded (reconcile_active c l b e).1.calls
  unfolding reconcile_active update_status
  reconcile_active-AllGuarded b e h =
      grind (arith, update_status_failed-AllGuarded, reconcile_validated-AllGuarded)

  reconcile_deleted-AllGuarded :
      (b : WerfBundle) (e : Env S)
      → AllGuarded e.calls
      → AllGuarded (reconcile_deleted c l b e).1.calls
  unfolding reconcile_deleted update
  reconcile_deleted-AllGuarded b e h = grind arith

  reconcile_present-AllGuarded :
      (b : WerfBundle) (e : Env S)
      → AllGuarded e.calls
      → AllGuarded (reconcile_present c l b e).1.calls
  unfolding reconcile_present update
  reconcile_present-AllGuarded b e h = grind (arith, reconcile_active-AllGuarded)

  -- On a server whose status updates leave the spec and the namespace of a bundle as they are, each
  -- Job that a reconciliation creates is guarded: by then the ServiceAccount that it names was found
  -- in its namespace, and its labels are for the last tag of a listing that the registry answered
  -- without an error.
  pub reconcile-guarded :
      (request : NamespacedName) (e : Env S)
      → AllGuarded e.calls
      → AllGuarded (reconcile c l request e).1.calls
  unfolding reconcile
  reconcile-guarded request e h =
      grind (arith, reconcile_deleted-AllGuarded, reconcile_present-AllGuarded)
