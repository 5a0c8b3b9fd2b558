-- ===== src/Api/Registration.antt =====
-- api/v1alpha1/groupversion_info.go, and `init` of werfbundle_types.go: the types of the API and how
-- they get into a scheme.
use k8s_werf_operator_go.Base.{Option, List, [], ◌∷◌, GoString, lit}
use k8s_werf_operator_go.Base.Result.{GoError}

-- `schema.GroupVersion`
pub record GroupVersion : Type 0 where
  pub group : GoString
  pub version : GoString

-- The two types of the API.
pub data ApiObject : Type 0 where
  werf_bundle werf_bundle_list : ApiObject

-- The names of the types.
abbrev pub type_name : ApiObject → GoString
type_name werf_bundle = lit "WerfBundle"
type_name werf_bundle_list = lit "WerfBundleList"

-- What is called of the libraries: `runtime.NewScheme`, `scheme.Builder` with `Register` and
-- `AddToScheme`, and `AddToScheme` of client-go. What a call changes is returned.
pub record Schemes (Scheme SchemeBuilder : Type 0) : Type 0 where
  pub new_scheme : Scheme
  pub new_scheme_builder : GroupVersion → SchemeBuilder
  pub register : SchemeBuilder → List ApiObject → SchemeBuilder
  pub add_all : SchemeBuilder → Scheme → Option GoError × Scheme
  pub add_client_go : Scheme → Option GoError × Scheme

unfoldable pub group_version : GroupVersion
group_version = record { group = lit "werf.io"; version = lit "v1alpha1" }

module _ {Scheme SchemeBuilder : Type 0} (schemes : Schemes Scheme SchemeBuilder) where
  -- `SchemeBuilder`, as the variable is declared.
  unfoldable pub scheme_builder : SchemeBuilder
  scheme_builder = schemes.new_scheme_builder group_version

  -- `SchemeBuilder` after `init`.
  unfoldable pub init_types : SchemeBuilder
  init_types = schemes.register scheme_builder (werf_bundle ∷ werf_bundle_list ∷ [])

  -- `AddToScheme`, a method of the one builder, which is called after its package's `init`.
  unfoldable pub add_to_scheme : Scheme → Option GoError × Scheme
  add_to_scheme = schemes.add_all init_types
