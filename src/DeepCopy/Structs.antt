-- ===== src/DeepCopy/Structs.antt =====
-- How the structs in memory are read as the resource of Api.antt, and that their copies are deep.
use k8s_werf_operator_go.Base.{ℕ, Option, none, some, List, [], ◌≡◌, refl}
use k8s_werf_operator_go.Base.Int.{ℤ}
use k8s_werf_operator_go.Api.{
  RegistryConfig, ResourceLimitsConfig, ValuesSource, ConvergeConfig, WerfBundleSpec,
}
use k8s_werf_operator_go.DeepCopy.Heap.{Boxing, pure, copy_pointer, copy_slice, copy_optional}
use k8s_werf_operator_go.DeepCopy.{
  RegistryStruct, SourceStruct, ConvergeStruct, SpecStruct, Cell, reference_box, limits_box,
  int32_box, source_box,
}
use k8s_werf_operator_go.DeepCopy.Copies.{copy_registry, copy_source, copy_converge, copy_spec}
use k8s_werf_operator_go.DeepCopy.Copier.{Reads, IsCopier, pure-IsCopier, read_optional}
use k8s_werf_operator_go.DeepCopy.Copier.Elements.{read_pointer, read_slice}
use k8s_werf_operator_go.DeepCopy.Copier.Pairs.{read_pair, optional-IsCopier, pair-IsCopier}
use k8s_werf_operator_go.DeepCopy.Copier.Slices.{pointer-IsCopier, slice-IsCopier}
use k8s_werf_operator_go.DeepCopy.Copier.Structs.{
  IsCopier-eq, copy_pair-then, copy_triple-then, read_struct, struct-IsCopier,
}

-- A slice that may be nil, which has no elements then.
abbrev pub elements : {A : Type 0} → Option (List A) → List A
elements none = []
elements (some l) = l

-- A thing that is its value.
abbrev pub plain : {C A : Type 0} → Reads C A A
plain h a = some a

-- The value of the struct, when its pointers have been read.
abbrev converge_value :
    ConvergeStruct
    → Option ResourceLimitsConfig × (Option ℤ × Option (List ValuesSource))
    → ConvergeConfig
converge_value s (limits, (days, sources)) = record {
  service_account_name = s.service_account_name;
  target_namespace = s.target_namespace;
  resource_limits = limits;
  log_retention_days = days;
  values_from = elements sources;
}

module _ {Meta ListMeta Other : Type 0} where
  -- A pointer to a thing without pointers, which may be nil.
  abbrev pub read_field :
      {A : Type 0}
      → Boxing (Cell Meta ListMeta Other) A
      → Reads (Cell Meta ListMeta Other) (Option ℕ) (Option A)
  read_field boxing = read_optional (read_pointer boxing plain)

  field-IsCopier :
      {A : Type 0} (boxing : Boxing (Cell Meta ListMeta Other) A)
      → ((a : A) → boxing.unbox (boxing.box a) ≡ some a)
      → IsCopier (read_field boxing) (copy_optional (copy_pointer boxing pure))
  field-IsCopier boxing same = optional-IsCopier (pointer-IsCopier boxing same pure-IsCopier)

  abbrev pub read_registry : Reads (Cell Meta ListMeta Other) RegistryStruct RegistryConfig
  read_registry =
      read_struct (λ s. s.secret_ref)
        (λ s w. record { url = s.url; secret_ref = w; poll_interval = s.poll_interval })
        (read_field reference_box)

  pub registry-IsCopier : IsCopier read_registry copy_registry
  unfolding copy_registry
  registry-IsCopier =
      struct-IsCopier (λ s. s.secret_ref) (λ s p. record s { secret_ref = p })
        (λ s w. record { url = s.url; secret_ref = w; poll_interval = s.poll_interval })
        (λ s p. refl) (λ s p w. refl) (field-IsCopier reference_box (λ a. refl))

  abbrev pub read_source : Reads (Cell Meta ListMeta Other) SourceStruct ValuesSource
  read_source =
      read_struct (λ s. (s.config_map_ref, s.secret_ref))
        (λ s w. record { config_map_ref = w.0; secret_ref = w.1; optional = s.optional })
        (read_pair (read_field reference_box) (read_field reference_box))

  pub source-IsCopier : IsCopier read_source copy_source
  unfolding copy_source
  source-IsCopier =
      let copy_reference = copy_optional (copy_pointer reference_box pure) in
      let reference = field-IsCopier reference_box (λ a. refl) in
      IsCopier-eq
        (λ s.
          copy_pair-then copy_reference copy_reference s.config_map_ref s.secret_ref
            (λ a b. pure (record s { config_map_ref = a; secret_ref = b })))
        (struct-IsCopier (λ s. (s.config_map_ref, s.secret_ref))
          (λ s p. record s { config_map_ref = p.0; secret_ref = p.1 })
          (λ s w. record { config_map_ref = w.0; secret_ref = w.1; optional = s.optional })
          (λ s p. refl) (λ s p w. refl) (pair-IsCopier reference reference))

  abbrev pub read_converge : Reads (Cell Meta ListMeta Other) ConvergeStruct ConvergeConfig
  read_converge =
      read_struct (λ s. (s.resource_limits, (s.log_retention_days, s.values_from))) converge_value
        (read_pair (read_field limits_box)
          (read_pair (read_field int32_box) (read_optional (read_slice source_box read_source))))

  pub converge-IsCopier : IsCopier read_converge copy_converge
  unfolding copy_converge
  converge-IsCopier =
      IsCopier-eq
        (λ s.
          copy_triple-then (copy_optional (copy_pointer limits_box pure))
            (copy_optional (copy_pointer int32_box pure))
            (copy_optional (copy_slice source_box copy_source)) s.resource_limits
            s.log_retention_days s.values_from
            (λ a b c.
              pure (record s { resource_limits = a; log_retention_days = b; values_from = c })))
        (struct-IsCopier (λ s. (s.resource_limits, (s.log_retention_days, s.values_from)))
          (λ s p. record s {
            resource_limits = p.0;
            log_retention_days = p.1.0;
            values_from = p.1.1;
          })
          converge_value (λ s p. refl) (λ s p w. refl)
          (pair-IsCopier (field-IsCopier limits_box (λ a. refl)) (
            pair-IsCopier (field-IsCopier int32_box (λ a. refl))
              (optional-IsCopier (slice-IsCopier source_box (λ a. refl) source-IsCopier)))))

  abbrev pub read_spec : Reads (Cell Meta ListMeta Other) SpecStruct WerfBundleSpec
  read_spec =
      read_struct (λ s. (s.registry, s.converge)) (λ s w. record { registry = w.0; converge = w.1 })
        (read_pair read_registry read_converge)

  pub spec-IsCopier : IsCopier read_spec copy_spec
  unfolding copy_spec
  spec-IsCopier =
      IsCopier-eq
        (λ s.
          copy_pair-then copy_registry copy_converge s.registry s.converge
            (λ a b. pure (record { registry = a; converge = b })))
        (struct-IsCopier (λ s. (s.registry, s.converge))
          (λ s p. record { registry = p.0; converge = p.1 })
          (λ s w. record { registry = w.0; converge = w.1 }) (λ s p. refl) (λ s p w. refl)
          (pair-IsCopier registry-IsCopier converge-IsCopier))
