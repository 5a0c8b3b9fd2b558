-- ===== src/Controller/Setup.antt =====
-- controllers/werfbundle_controller.go: `SetupWithManager`.
use k8s_werf_operator_go.Base.{Option, none, some, List, [], ◌∷◌, lit}
use k8s_werf_operator_go.Base.Result.{Result, ok, err, GoError, wrapped, Eff}

-- The kinds of objects whose events the controller gets.
pub data Kind : Type 0 where
  werf_bundle job : Kind

-- The predicates of the library that look at what changed: `GenerationChangedPredicate`, which
-- `SetupWithManager` uses, and `ResourceVersionChangedPredicate`.
pub data EventFilter : Type 0 where
  generation_changed resource_version_changed : EventFilter

-- What the controller builder is told: the kind that it reconciles, the kinds that are owned by
-- such an object, and the filter of all their events, if there is one.
pub record ControllerSpec : Type 0 where
  pub reconciled : Kind
  pub owned : List Kind
  pub filter : Option EventFilter

-- `WerfBundleReconciler`; the fields that are set before are one, of a type of the caller's.
pub record WerfBundleReconciler (Fields Clientset : Type 0) : Type 0 where
  pub fields : Fields
  pub clientset : Option Clientset

-- The controller that is built.
unfoldable pub controller_spec : ControllerSpec
controller_spec = record {
  reconciled = werf_bundle;
  owned = job ∷ [];
  filter = some generation_changed;
}

-- What is called of the libraries: the clientset for the manager's configuration, and `Complete` of
-- the controller builder.
pub record Builders (Fields Clientset N : Type 0) : Type 0 where
  pub new_for_config : Eff N (Result Clientset)
  pub complete : ControllerSpec → WerfBundleReconciler Fields Clientset → Eff N (Option GoError)

module _ {Fields Clientset N : Type 0} (builders : Builders Fields Clientset N) where
  -- The error, with the reconciler as the method leaves it.
  unfoldable pub setup_with_manager :
      WerfBundleReconciler Fields Clientset
      → Eff N (Option GoError × WerfBundleReconciler Fields Clientset)
  setup_with_manager r n = elim r.clientset [
    | some clientset ↦ let (x, n') = builders.complete controller_spec r n in ((x, r), n')
    | none ↦
        let (made, n₁) = builders.new_for_config n in
        elim made [
          | err x ↦ ((some (wrapped (lit "failed to create Kubernetes clientset") x), r), n₁)
          | ok clientset ↦
              let r' = record r { clientset = some clientset } in
              let (x, n₂) = builders.complete controller_spec r' n₁ in ((x, r'), n₂)
        ]
  ]
