-- ===== src/Examples/DeepCopies.antt =====
-- api/v1alpha1/zz_generated.deepcopy.go: a list of two bundles in memory, of which the first has
-- values from a ConfigMap and from a Secret.
use k8s_werf_operator_go.Base.{
  ℕ, zero, suc, true, false, Option, none, some, List, [], ◌∷◌, GoString, lit, ◌≤◌, ◌≡◌, refl,
  arith, length,
}
use k8s_werf_operator_go.Base.Int.{pos}
use k8s_werf_operator_go.Api.{ObjectMeta, Phase, JobStatus}
use k8s_werf_operator_go.DeepCopy.Heap.{
  copy_optional, copy_slice, copy_elements, Heap, Slice, pure, copy_pointer,
}
use k8s_werf_operator_go.DeepCopy.{
  BundleStruct, Cell, reference_cell, limits_cell, int32_cell, time_cell, source_cell, bundle_cell,
  list_cell, Library, time_box,
}
use k8s_werf_operator_go.DeepCopy.Copies.{
  deep_copy_bundle, deep_copy_list, nil_object, deep_copy_bundle_object, deep_copy_list_object,
  copy_registry, copy_source, copy_converge, copy_spec, copy_status, copy_bundle, copy_list,
}
use k8s_werf_operator_go.DeepCopy.Copier.{IsHeap, pure-IsCopier}
use k8s_werf_operator_go.DeepCopy.Copier.Slices.{pointer-IsCopier}
use k8s_werf_operator_go.DeepCopy.Structs.{plain}
use k8s_werf_operator_go.DeepCopy.Independence.{
  read_list_pointer, IsDeepCopy, deep_copy_list-IsDeepCopy,
}

abbrev Cells : Type 0
Cells = Cell ObjectMeta GoString (Unit {0})

-- Metadata without pointers.
abbrev apimachinery : Library ObjectMeta GoString (Unit {0})
apimachinery = record {
  copy_time = copy_pointer time_box pure;
  copy_object_meta = pure;
  copy_list_meta = pure;
}

abbrev meta : GoString → ObjectMeta
meta name = record {
  name = name;
  namespace = lit "apps";
  uid = name;
  resource_version = lit "1";
  deletion_timestamp = none;
  finalizers = [];
}

-- A bundle with its Secret for the registry at address 0.
abbrev in_memory :
    GoString → Option ℕ → Option ℕ → Option Slice → Option ℕ → BundleStruct ObjectMeta
in_memory name limits days values synced = record {
  type_meta = record { kind = lit "WerfBundle"; api_version = lit "werf.io/v1alpha1" };
  meta = meta name;
  spec = record {
    registry = record { url = lit "r"; secret_ref = some 0; poll_interval = lit "15m" };
    converge = record {
      service_account_name = lit "sa";
      target_namespace = [];
      resource_limits = limits;
      log_retention_days = days;
      values_from = values;
    };
  };
  status = record {
    phase = Phase.synced;
    last_applied_tag = lit "1.0.0";
    last_sync_time = synced;
    last_error_message = [];
    last_etag = [];
    consecutive_failures = pos 0;
    last_error_time = none;
    active_job_name = [];
    last_job_status = JobStatus.unset;
    last_job_logs = [];
    resolved_target_namespace = lit "apps";
  };
}

abbrev cells : List Cells
cells =
    reference_cell (lit "registry")
    ∷ limits_cell (record { cpu = lit "1"; memory = lit "1Gi" })
    ∷ int32_cell (pos 7)
    ∷ source_cell (record { config_map_ref = some 5; secret_ref = none; optional = true })
    ∷ source_cell (record { config_map_ref = none; secret_ref = some 0; optional = false })
    ∷ reference_cell (lit "values")
    ∷ time_cell 100
    ∷ bundle_cell
        (in_memory (lit "one") (some 1) (some 2) (some (record { base = 3; len = 2 })) (some 6))
    ∷ bundle_cell (in_memory (lit "two") none none none none)
    ∷ list_cell (record {
      type_meta = record { kind = lit "WerfBundleList"; api_version = lit "werf.io/v1alpha1" };
      list_meta = lit "1";
      items = some (record { base = 7; len = 2 });
    })
    ∷ []

abbrev cell_of : List Cells → ℕ → Option Cells
cell_of [] p = none
cell_of (c ∷ l) zero = some c
cell_of (c ∷ l) (suc p) = cell_of l p

cell_of-past : (l : List Cells) (p : ℕ) → length l ≤ p → cell_of l p ≡ none
cell_of-past [] p past = refl
cell_of-past (c ∷ l) zero past = absurd (omega (arith, past))
cell_of-past (c ∷ l) (suc p) past = cell_of-past l p (omega (arith, past))

abbrev memory : Heap Cells
memory = record { next = 10; cell = cell_of cells }

memory-IsHeap : IsHeap memory
memory-IsHeap p above = cell_of-past cells p above

abbrev or_nil : {V : Type 0} → Option (Option V) → Option V
or_nil none = none
or_nil (some v) = v

deep_copy_list-IsDeepCopy_example :
    IsDeepCopy
      (read_list_pointer plain plain)
      (deep_copy_list apimachinery)
      memory
      (some 9)
      (or_nil (read_list_pointer plain plain memory (some 9)))
deep_copy_list-IsDeepCopy_example =
    deep_copy_list-IsDeepCopy apimachinery (pointer-IsCopier time_box (λ a. refl) pure-IsCopier)
      pure-IsCopier pure-IsCopier memory (some 9)
      (or_nil (read_list_pointer plain plain memory (some 9))) memory-IsHeap refl

-- Of a nil pointer the copy is a nil interface.
nil_is_nil :
    (deep_copy_bundle_object apimachinery none memory ≡ some (nil_object, memory))
    × (deep_copy_list_object apimachinery none memory ≡ some (nil_object, memory))
unfolding deep_copy_bundle_object deep_copy_list_object deep_copy_bundle deep_copy_list
    copy_optional
nil_is_nil = (refl, refl)

-- The copy of the list: its own cell, after its two items and what they point to.
list_copied :
    (elim (deep_copy_list apimachinery (some 9) memory) [ none ↦ none | some (p, h) ↦ p ]) ≡ some 10
unfolding deep_copy_list copy_list copy_bundle copy_spec copy_status copy_registry copy_converge
    copy_source copy_optional copy_pointer copy_slice copy_elements
list_copied = refl
