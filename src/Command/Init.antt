-- ===== src/Command/Init.antt =====
-- cmd/main.go: `init`, which makes the scheme, and what the reconciler finds in it.
use mathlib.Core.List.{Memᴰ}
use k8s_werf_operator_go.Base.{Option, none, some, List, [], ◌∷◌, ◌++◌, ◌≡◌, refl, arith, lit}
use k8s_werf_operator_go.Base.Result.{Result, ok, err, GoError}
use k8s_werf_operator_go.Api.{WerfBundle}
use k8s_werf_operator_go.Api.Registration.{
  GroupVersion, ApiObject, werf_bundle, werf_bundle_list, type_name, Schemes, group_version,
  scheme_builder, init_types, add_to_scheme,
}
use k8s_werf_operator_go.Converge.Builder.{GroupVersionKind, owner_references}
use k8s_werf_operator_go.Converge.Builder.Jobs.{owner_of}

-- `GroupVersion.String`, of a group that is not empty, and the kind of a type.
abbrev pub kind_in : GroupVersion → ApiObject → GroupVersionKind
kind_in gv o = record { group_version = gv.group ++ lit "/" ++ gv.version; kind = type_name o }

module _ {Scheme SchemeBuilder : Type 0} (schemes : Schemes Scheme SchemeBuilder) where
  -- The scheme that `main` gives to the manager; `none` is the panic of `utilruntime.Must`.
  unfoldable pub init : Option Scheme
  init =
      let (client_go_failed, scheme) = schemes.add_client_go schemes.new_scheme in
      let (werf_failed, scheme') = add_to_scheme schemes scheme in
      elim client_go_failed [
        | some x ↦ none
        | none ↦ elim werf_failed [ some x ↦ none | none ↦ some scheme' ]
      ]

  -- What the libraries document, of `ObjectKinds` of a scheme: it fails for a type that was not
  -- added, and client-go adds none of these types; the builder adds those that were registered, each
  -- under its name in the builder's group and version.
  pub record Registers (object_kinds : Scheme → ApiObject → Result (List GroupVersionKind))
      : Type 0 where
    pub client_go_adds_none :
        (o : ApiObject)
        → (e : GoError) × (object_kinds (schemes.add_client_go schemes.new_scheme).1 o ≡ err e)
    pub adds_registered :
        (gv : GroupVersion) (objects : List ApiObject) (o : ApiObject) (scheme : Scheme)
        → (schemes.add_all (schemes.register (schemes.new_scheme_builder gv) objects) scheme).0
          ≡ none
        → Memᴰ o objects
        → ((e : GoError) × (object_kinds scheme o ≡ err e))
        → object_kinds
            (schemes.add_all (schemes.register (schemes.new_scheme_builder gv) objects) scheme).1
            o
          ≡ ok (kind_in gv o ∷ [])

  is_listed : (o : ApiObject) → Memᴰ o (werf_bundle ∷ werf_bundle_list ∷ [])
  is_listed werf_bundle = Memᴰ.head refl
  is_listed werf_bundle_list = Memᴰ.tail (Memᴰ.head refl)

  init-kinds :
      {object_kinds : Scheme → ApiObject → Result (List GroupVersionKind)} {scheme : Scheme}
      → Registers object_kinds
      → init ≡ some scheme
      → (o : ApiObject) → object_kinds scheme o ≡ ok (kind_in group_version o ∷ [])
  unfolding init add_to_scheme init_types scheme_builder
  init-kinds {object_kinds} {scheme} registers made o =
      let first = (schemes.add_client_go schemes.new_scheme).1 in
      let added =
        registers.adds_registered group_version (werf_bundle ∷ werf_bundle_list ∷ []) o first in
      ground (arith, made, added, is_listed o, registers.client_go_adds_none o)

  -- Once `init` has returned, with libraries that add what is registered, both types of the API are
  -- known by one kind each, in version v1alpha1 of the group werf.io; so the owner of a Job is found
  -- in the scheme, for any bundle: it is the bundle by its kind in that version.
  pub init-owner_references :
      {object_kinds : Scheme → ApiObject → Result (List GroupVersionKind)} {scheme : Scheme}
      → Registers object_kinds
      → init ≡ some scheme
      → (b : WerfBundle)
      → ((o : ApiObject) → object_kinds scheme o ≡ ok (kind_in group_version o ∷ []))
        × (owner_references b (some (object_kinds scheme werf_bundle))
            ≡ ok (
                owner_of b
                  (record { group_version = lit "werf.io/v1alpha1"; kind = lit "WerfBundle" })))
  unfolding owner_references group_version lit
  init-owner_references registers made b =
      let known = init-kinds registers made in (known, rw (known werf_bundle) refl)
