-- ===== src/DeepCopy/Copies.antt =====
-- api/v1alpha1/zz_generated.deepcopy.go: the functions.
use k8s_werf_operator_go.Base.{ℕ, Option, none, some}
use k8s_werf_operator_go.Api.{ResourceLimitsConfig}
use k8s_werf_operator_go.DeepCopy.Heap.{
  Boxing, M, pure, ◌>>=◌, copy_pointer, copy_slice, copy_optional,
}
use k8s_werf_operator_go.DeepCopy.{
  RegistryStruct, SourceStruct, ConvergeStruct, SpecStruct, StatusStruct, BundleStruct, ListStruct,
  Cell, Library, reference_box, limits_box, int32_box, source_box, registry_box, converge_box,
  spec_box, status_box, bundle_box, list_box,
}

-- `func (in *T) DeepCopy() *T`: of nil, nil.
abbrev pub deep_copy : {C A : Type 0} → Boxing C A → (A → M C A) → Option ℕ → M C (Option ℕ)
deep_copy boxing copy = copy_optional (copy_pointer boxing copy)

-- `runtime.Object`, with what this package returns as one.
pub data Object : Type 0 where
  nil_object : Object
  bundle_object list_object : ℕ → Object

-- `if c := in.DeepCopy(); c != nil { return c }`, and else nil.
abbrev pub as_object : (ℕ → Object) → Option ℕ → Object
as_object object none = nil_object
as_object object (some p) = object p

module _ {Meta ListMeta Other : Type 0} where
  unfoldable pub copy_limits :
      ResourceLimitsConfig → M (Cell Meta ListMeta Other) ResourceLimitsConfig
  copy_limits = pure

  -- `func (in *RegistryConfig) DeepCopyInto(out *RegistryConfig)`; also the others, below, take the
  -- value of `*in` and make that for `*out`.
  unfoldable pub copy_registry : RegistryStruct → M (Cell Meta ListMeta Other) RegistryStruct
  copy_registry in_ = do
    secret_ref ← copy_optional (copy_pointer reference_box pure) in_.secret_ref
    pure (record in_ { secret_ref = secret_ref })

  unfoldable pub copy_source : SourceStruct → M (Cell Meta ListMeta Other) SourceStruct
  copy_source in_ = do
    config_map_ref ← copy_optional (copy_pointer reference_box pure) in_.config_map_ref
    secret_ref ← copy_optional (copy_pointer reference_box pure) in_.secret_ref
    pure (record in_ { config_map_ref = config_map_ref; secret_ref = secret_ref })

  unfoldable pub copy_converge : ConvergeStruct → M (Cell Meta ListMeta Other) ConvergeStruct
  copy_converge in_ = do
    limits ← copy_optional (copy_pointer limits_box pure) in_.resource_limits
    days ← copy_optional (copy_pointer int32_box pure) in_.log_retention_days
    values ← copy_optional (copy_slice source_box copy_source) in_.values_from
    pure (record in_ { resource_limits = limits; log_retention_days = days; values_from = values })

  unfoldable pub copy_spec : SpecStruct → M (Cell Meta ListMeta Other) SpecStruct
  copy_spec in_ = do
    registry ← copy_registry in_.registry
    converge ← copy_converge in_.converge
    pure (record { registry = registry; converge = converge })

  unfoldable pub deep_copy_limits : Option ℕ → M (Cell Meta ListMeta Other) (Option ℕ)
  deep_copy_limits = deep_copy limits_box copy_limits

  unfoldable pub deep_copy_registry : Option ℕ → M (Cell Meta ListMeta Other) (Option ℕ)
  deep_copy_registry = deep_copy registry_box copy_registry

  unfoldable pub deep_copy_source : Option ℕ → M (Cell Meta ListMeta Other) (Option ℕ)
  deep_copy_source = deep_copy source_box copy_source

  unfoldable pub deep_copy_converge : Option ℕ → M (Cell Meta ListMeta Other) (Option ℕ)
  deep_copy_converge = deep_copy converge_box copy_converge

  unfoldable pub deep_copy_spec : Option ℕ → M (Cell Meta ListMeta Other) (Option ℕ)
  deep_copy_spec = deep_copy spec_box copy_spec

module _ {Meta ListMeta Other : Type 0} (library : Library Meta ListMeta Other) where
  unfoldable pub copy_status : StatusStruct → M (Cell Meta ListMeta Other) StatusStruct
  copy_status in_ = do
    synced ← copy_optional library.copy_time in_.last_sync_time
    failed ← copy_optional library.copy_time in_.last_error_time
    pure (record in_ { last_sync_time = synced; last_error_time = failed })

  unfoldable pub copy_bundle : BundleStruct Meta → M (Cell Meta ListMeta Other) (BundleStruct Meta)
  copy_bundle in_ = do
    meta ← library.copy_object_meta in_.meta
    spec ← copy_spec in_.spec
    status ← copy_status in_.status
    pure (record in_ { meta = meta; spec = spec; status = status })

  unfoldable pub copy_list :
      ListStruct ListMeta → M (Cell Meta ListMeta Other) (ListStruct ListMeta)
  copy_list in_ = do
    meta ← library.copy_list_meta in_.list_meta
    items ← copy_optional (copy_slice bundle_box copy_bundle) in_.items
    pure (record in_ { list_meta = meta; items = items })

  unfoldable pub deep_copy_status : Option ℕ → M (Cell Meta ListMeta Other) (Option ℕ)
  deep_copy_status = deep_copy status_box copy_status

  unfoldable pub deep_copy_bundle : Option ℕ → M (Cell Meta ListMeta Other) (Option ℕ)
  deep_copy_bundle = deep_copy bundle_box copy_bundle

  unfoldable pub deep_copy_list : Option ℕ → M (Cell Meta ListMeta Other) (Option ℕ)
  deep_copy_list = deep_copy list_box copy_list

  -- `DeepCopyObject`
  unfoldable pub deep_copy_bundle_object : Option ℕ → M (Cell Meta ListMeta Other) Object
  deep_copy_bundle_object in_ = do c ← deep_copy_bundle in_; pure (as_object bundle_object c)

  unfoldable pub deep_copy_list_object : Option ℕ → M (Cell Meta ListMeta Other) Object
  deep_copy_list_object in_ = do c ← deep_copy_list in_; pure (as_object list_object c)
