-- ===== src/Api.antt =====
-- api/v1alpha1/werfbundle_types.go: the WerfBundle resource, and the fields of the Kubernetes
-- objects that the operator reads or writes.
pub mod CrossNamespace
pub mod Registration
use k8s_werf_operator_go.Base.{
  ℕ, Bool, Option, none, some, List, ◌++◌, ◌||◌, GoString, lit, is_empty, str_eq, if◌then◌else◌,
}
use k8s_werf_operator_go.Base.Result.{GoError, message}
use k8s_werf_operator_go.Base.Int.{ℤ}
use k8s_werf_operator_go.Base.Maps.{GoMap}

-- `PhaseSyncing`, `PhaseSynced`, `PhaseFailed`; `unset` is the empty string of a new bundle.
pub data Phase : Type 0 where
  unset syncing synced failed : Phase

-- `JobStatusRunning`, `JobStatusSucceeded`, `JobStatusFailed`.
pub data JobStatus : Type 0 where
  unset running succeeded failed : JobStatus

pub record RegistryConfig : Type 0 where
  pub url : GoString
  pub secret_ref : Option GoString
  pub poll_interval : GoString

pub record ResourceLimitsConfig : Type 0 where
  pub cpu : GoString
  pub memory : GoString

pub record ValuesSource : Type 0 where
  pub config_map_ref : Option GoString
  pub secret_ref : Option GoString
  pub optional : Bool

pub record ConvergeConfig : Type 0 where
  pub service_account_name : GoString
  pub target_namespace : GoString
  pub resource_limits : Option ResourceLimitsConfig
  pub log_retention_days : Option ℤ  -- int32
  pub values_from : List ValuesSource

pub record WerfBundleSpec : Type 0 where
  pub registry : RegistryConfig
  pub converge : ConvergeConfig

-- A time is a number of seconds, the precision with which the API keeps it.
pub record WerfBundleStatus : Type 0 where
  pub phase : Phase
  pub last_applied_tag : GoString
  pub last_sync_time : Option ℕ
  pub last_error_message : GoString
  pub last_etag : GoString
  pub consecutive_failures : ℤ  -- int32
  pub last_error_time : Option ℕ
  pub active_job_name : GoString
  pub last_job_status : JobStatus
  pub last_job_logs : GoString
  pub resolved_target_namespace : GoString

-- Of `metav1.ObjectMeta`, what the operator uses or the API server checks.
pub record ObjectMeta : Type 0 where
  pub name : GoString
  pub namespace : GoString
  pub uid : GoString
  pub resource_version : GoString
  pub deletion_timestamp : Option ℕ
  pub finalizers : List GoString

pub record WerfBundle : Type 0 where
  pub meta : ObjectMeta
  pub spec : WerfBundleSpec
  pub status : WerfBundleStatus

pub record NamespacedName : Type 0 where
  pub name : GoString
  pub namespace : GoString

-- internal/values/helpers.go: `GetTargetNamespace`.
unfoldable pub get_target_namespace : ConvergeConfig → GoString → GoString
get_target_namespace converge_config bundle_namespace =
    if is_empty converge_config.target_namespace
    then bundle_namespace
    else converge_config.target_namespace

unfoldable pub validate_cross_namespace_deployment : WerfBundle → Option GoError
validate_cross_namespace_deployment wb =
    let target_ns = wb.spec.converge.target_namespace in
    let bundle_ns = wb.meta.namespace in
    if is_empty target_ns || str_eq target_ns bundle_ns
    then none
    else if is_empty wb.spec.converge.service_account_name
    then some (
        message (
          lit "serviceAccountName is required for cross-namespace deployment from "
          ++ bundle_ns
          ++ lit " to "
          ++ target_ns))
    else none
