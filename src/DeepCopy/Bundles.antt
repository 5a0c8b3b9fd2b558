-- ===== src/DeepCopy/Bundles.antt =====
-- The deep copies of a WerfBundle and of a WerfBundleList are deep, provided those of apimachinery
-- are, for which `read_meta` and `read_list_meta` say what the metadata reads as.
use k8s_werf_operator_go.Base.{ℕ, Option, List, refl}
use k8s_werf_operator_go.Api.{ObjectMeta, WerfBundle, WerfBundleStatus}
use k8s_werf_operator_go.DeepCopy.Heap.{pure, copy_slice, copy_optional}
use k8s_werf_operator_go.DeepCopy.{
  TypeMeta, StatusStruct, BundleStruct, ListStruct, Cell, Library, time_box, bundle_box,
}
use k8s_werf_operator_go.DeepCopy.Copies.{copy_spec, copy_status, copy_bundle, copy_list}
use k8s_werf_operator_go.DeepCopy.Copier.{Reads, IsCopier, read_optional}
use k8s_werf_operator_go.DeepCopy.Copier.Elements.{read_pointer, read_slice}
use k8s_werf_operator_go.DeepCopy.Copier.Pairs.{read_pair, optional-IsCopier, pair-IsCopier}
use k8s_werf_operator_go.DeepCopy.Copier.Slices.{slice-IsCopier}
use k8s_werf_operator_go.DeepCopy.Copier.Structs.{
  IsCopier-eq, copy_pair-then, copy_triple-then, read_struct, struct-IsCopier,
}
use k8s_werf_operator_go.DeepCopy.Structs.{plain, read_spec, spec-IsCopier}

abbrev status_value : StatusStruct → Option ℕ × Option ℕ → WerfBundleStatus
status_value s (synced, failed) = record {
  phase = s.phase;
  last_applied_tag = s.last_applied_tag;
  last_sync_time = synced;
  last_error_message = s.last_error_message;
  last_etag = s.last_etag;
  consecutive_failures = s.consecutive_failures;
  last_error_time = failed;
  active_job_name = s.active_job_name;
  last_job_status = s.last_job_status;
  last_job_logs = s.last_job_logs;
  resolved_target_namespace = s.resolved_target_namespace;
}

module _ {Meta ListMeta Other : Type 0} where
  abbrev pub read_time : Reads (Cell Meta ListMeta Other) ℕ ℕ
  read_time = read_pointer time_box plain

  abbrev pub read_status : Reads (Cell Meta ListMeta Other) StatusStruct WerfBundleStatus
  read_status =
      read_struct (λ s. (s.last_sync_time, s.last_error_time)) status_value
        (read_pair (read_optional read_time) (read_optional read_time))

  module _ (read_meta : Reads (Cell Meta ListMeta Other) Meta ObjectMeta) where
    -- A resource, with the name of its kind.
    abbrev pub read_bundle :
        Reads (Cell Meta ListMeta Other) (BundleStruct Meta) (TypeMeta × WerfBundle)
    read_bundle =
        read_struct (λ s. (s.meta, (s.spec, s.status)))
          (λ s w. (s.type_meta, record { meta = w.0; spec = w.1.0; status = w.1.1 }))
          (read_pair read_meta (read_pair read_spec read_status))

    module _ {V : Type 0} (read_list_meta : Reads (Cell Meta ListMeta Other) ListMeta V) where
      abbrev pub read_list :
          Reads
            (Cell Meta ListMeta Other)
            (ListStruct ListMeta)
            (TypeMeta × (V × Option (List (TypeMeta × WerfBundle))))
      read_list =
          read_struct (λ s. (s.list_meta, s.items)) (λ s w. (s.type_meta, w))
            (read_pair read_list_meta (read_optional (read_slice bundle_box read_bundle)))

module _ {Meta ListMeta Other : Type 0} (library : Library Meta ListMeta Other)
    (time : IsCopier read_time library.copy_time) where
  status-IsCopier : IsCopier read_status (copy_status library)
  unfolding copy_status
  status-IsCopier =
      let copy_time = copy_optional library.copy_time in
      IsCopier-eq
        (λ s.
          copy_pair-then copy_time copy_time s.last_sync_time s.last_error_time
            (λ a b. pure (record s { last_sync_time = a; last_error_time = b })))
        (struct-IsCopier (λ s. (s.last_sync_time, s.last_error_time))
          (λ s p. record s { last_sync_time = p.0; last_error_time = p.1 }) status_value
          (λ s p. refl) (λ s p w. refl)
          (pair-IsCopier (optional-IsCopier time) (optional-IsCopier time)))

  module _ {read_meta : Reads (Cell Meta ListMeta Other) Meta ObjectMeta}
      (object_meta : IsCopier read_meta library.copy_object_meta) where
    pub bundle-IsCopier : IsCopier (read_bundle read_meta) (copy_bundle library)
    unfolding copy_bundle
    bundle-IsCopier =
        IsCopier-eq
          (λ s.
            copy_triple-then library.copy_object_meta copy_spec (copy_status library) s.meta s.spec
              s.status (λ a b c. pure (record s { meta = a; spec = b; status = c })))
          (struct-IsCopier (λ s. (s.meta, (s.spec, s.status)))
            (λ s p. record s { meta = p.0; spec = p.1.0; status = p.1.1 })
            (λ s w. (s.type_meta, record { meta = w.0; spec = w.1.0; status = w.1.1 }))
            (λ s p. refl) (λ s p w. refl)
            (pair-IsCopier object_meta (pair-IsCopier spec-IsCopier status-IsCopier)))

    module _ {V : Type 0} {read_list_meta : Reads (Cell Meta ListMeta Other) ListMeta V}
        (list_meta : IsCopier read_list_meta library.copy_list_meta) where
      pub list-IsCopier : IsCopier (read_list read_meta read_list_meta) (copy_list library)
      unfolding copy_list
      list-IsCopier =
          IsCopier-eq
            (λ s.
              copy_pair-then library.copy_list_meta
                (copy_optional (copy_slice bundle_box (copy_bundle library))) s.list_meta s.items
                (λ a b. pure (record s { list_meta = a; items = b })))
            (struct-IsCopier (λ s. (s.list_meta, s.items))
              (λ s p. record s { list_meta = p.0; items = p.1 }) (λ s w. (s.type_meta, w))
              (λ s p. refl) (λ s p w. refl)
              (pair-IsCopier list_meta
                (optional-IsCopier (slice-IsCopier bundle_box (λ a. refl) bundle-IsCopier))))
