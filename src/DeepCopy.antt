-- ===== src/DeepCopy.antt =====
-- api/v1alpha1/zz_generated.deepcopy.go: the resource as it lies in memory, with its pointers, and
-- its deep copies. A struct within a struct is part of the cell of the outer one, so that
-- `in.Spec.DeepCopyInto(&out.Spec)` makes the value of the field `spec`.
pub mod Heap
pub mod Copier
pub mod Copies
pub mod Structs
pub mod Bundles
pub mod Independence
use k8s_werf_operator_go.Base.{ℕ, Bool, Option, none, some, GoString}
use k8s_werf_operator_go.Base.Int.{ℤ}
use k8s_werf_operator_go.Api.{ResourceLimitsConfig, Phase, JobStatus}
use k8s_werf_operator_go.DeepCopy.Heap.{Boxing, Slice, M}

pub record TypeMeta : Type 0 where
  pub kind : GoString
  pub api_version : GoString

pub record RegistryStruct : Type 0 where
  pub url : GoString
  pub secret_ref : Option ℕ
  pub poll_interval : GoString

pub record SourceStruct : Type 0 where
  pub config_map_ref : Option ℕ
  pub secret_ref : Option ℕ
  pub optional : Bool

pub record ConvergeStruct : Type 0 where
  pub service_account_name : GoString
  pub target_namespace : GoString
  pub resource_limits : Option ℕ
  pub log_retention_days : Option ℕ
  pub values_from : Option Slice

pub record SpecStruct : Type 0 where
  pub registry : RegistryStruct
  pub converge : ConvergeStruct

pub record StatusStruct : Type 0 where
  pub phase : Phase
  pub last_applied_tag : GoString
  pub last_sync_time : Option ℕ
  pub last_error_message : GoString
  pub last_etag : GoString
  pub consecutive_failures : ℤ  -- int32
  pub last_error_time : Option ℕ
  pub active_job_name : GoString
  pub last_job_status : JobStatus
  pub last_job_logs : GoString
  pub resolved_target_namespace : GoString

-- `Meta` and `ListMeta` are the library's metadata, as they lie in memory.
pub record BundleStruct (Meta : Type 0) : Type 0 where
  pub type_meta : TypeMeta
  pub meta : Meta
  pub spec : SpecStruct
  pub status : StatusStruct

pub record ListStruct (ListMeta : Type 0) : Type 0 where
  pub type_meta : TypeMeta
  pub list_meta : ListMeta
  pub items : Option Slice

-- What a cell can hold; `Other` is what the library stores.
pub data Cell (Meta ListMeta Other : Type 0) : Type 0 where
  reference_cell : GoString → Cell Meta ListMeta Other
  limits_cell : ResourceLimitsConfig → Cell Meta ListMeta Other
  int32_cell : ℤ → Cell Meta ListMeta Other
  time_cell : ℕ → Cell Meta ListMeta Other
  source_cell : SourceStruct → Cell Meta ListMeta Other
  registry_cell : RegistryStruct → Cell Meta ListMeta Other
  converge_cell : ConvergeStruct → Cell Meta ListMeta Other
  spec_cell : SpecStruct → Cell Meta ListMeta Other
  status_cell : StatusStruct → Cell Meta ListMeta Other
  bundle_cell : BundleStruct Meta → Cell Meta ListMeta Other
  list_cell : ListStruct ListMeta → Cell Meta ListMeta Other
  other_cell : Other → Cell Meta ListMeta Other

-- The deep copies of apimachinery: of a `metav1.Time` and of the two kinds of metadata.
pub record Library (Meta ListMeta Other : Type 0) : Type 0 where
  pub copy_time : ℕ → M (Cell Meta ListMeta Other) ℕ
  pub copy_object_meta : Meta → M (Cell Meta ListMeta Other) Meta
  pub copy_list_meta : ListMeta → M (Cell Meta ListMeta Other) ListMeta

module _ {Meta ListMeta Other : Type 0} where
  abbrev pub reference_box : Boxing (Cell Meta ListMeta Other) GoString
  reference_box = record {
    box = reference_cell;
    unbox = λ c. elim c [ reference_cell name ↦ some name | _ ↦ none ];
  }

  abbrev pub limits_box : Boxing (Cell Meta ListMeta Other) ResourceLimitsConfig
  limits_box = record {
    box = limits_cell;
    unbox = λ c. elim c [ limits_cell limits ↦ some limits | _ ↦ none ];
  }

  abbrev pub int32_box : Boxing (Cell Meta ListMeta Other) ℤ
  int32_box = record { box = int32_cell; unbox = λ c. elim c [ int32_cell n ↦ some n | _ ↦ none ] }

  abbrev pub time_box : Boxing (Cell Meta ListMeta Other) ℕ
  time_box = record { box = time_cell; unbox = λ c. elim c [ time_cell t ↦ some t | _ ↦ none ] }

  abbrev pub source_box : Boxing (Cell Meta ListMeta Other) SourceStruct
  source_box = record {
    box = source_cell;
    unbox = λ c. elim c [ source_cell s ↦ some s | _ ↦ none ];
  }

  abbrev pub registry_box : Boxing (Cell Meta ListMeta Other) RegistryStruct
  registry_box = record {
    box = registry_cell;
    unbox = λ c. elim c [ registry_cell s ↦ some s | _ ↦ none ];
  }

  abbrev pub converge_box : Boxing (Cell Meta ListMeta Other) ConvergeStruct
  converge_box = record {
    box = converge_cell;
    unbox = λ c. elim c [ converge_cell s ↦ some s | _ ↦ none ];
  }

  abbrev pub spec_box : Boxing (Cell Meta ListMeta Other) SpecStruct
  spec_box = record { box = spec_cell; unbox = λ c. elim c [ spec_cell s ↦ some s | _ ↦ none ] }

  abbrev pub status_box : Boxing (Cell Meta ListMeta Other) StatusStruct
  status_box = record {
    box = status_cell;
    unbox = λ c. elim c [ status_cell s ↦ some s | _ ↦ none ];
  }

  abbrev pub bundle_box : Boxing (Cell Meta ListMeta Other) (BundleStruct Meta)
  bundle_box = record {
    box = bundle_cell;
    unbox = λ c. elim c [ bundle_cell s ↦ some s | _ ↦ none ];
  }

  abbrev pub list_box : Boxing (Cell Meta ListMeta Other) (ListStruct ListMeta)
  list_box = record { box = list_cell; unbox = λ c. elim c [ list_cell s ↦ some s | _ ↦ none ] }
