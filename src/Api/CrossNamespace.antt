-- ===== src/Api/CrossNamespace.antt =====
-- api/v1alpha1/werfbundle_types.go: when `ValidateCrossNamespaceDeployment` accepts a bundle.
use k8s_werf_operator_go.Base.{none, [], ◌≡◌, ◌≢◌, ◌↔◌, ◌⊎◌, arith, str_eq_iff}
use k8s_werf_operator_go.Api.{WerfBundle, get_target_namespace, validate_cross_namespace_deployment}

-- A bundle is accepted exactly when it is deployed to its own namespace or names a
-- ServiceAccount.
pub validate_cross_namespace_deployment_iff :
    (wb : WerfBundle)
    → (validate_cross_namespace_deployment wb ≡ none) ↔ (
        (get_target_namespace wb.spec.converge wb.meta.namespace ≡ wb.meta.namespace)
        ⊎ (wb.spec.converge.service_account_name ≢ []))
unfolding validate_cross_namespace_deployment get_target_namespace
validate_cross_namespace_deployment_iff wb =
    grind (arith, str_eq_iff wb.spec.converge.target_namespace wb.meta.namespace)
