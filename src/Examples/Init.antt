-- ===== src/Examples/Init.antt =====
-- cmd/main.go: `init`, with a scheme that is a list of types, each with its kind.
use mathlib.Core.List.{Memᴰ}
use k8s_werf_operator_go.Base.{
  Bool, true, false, none, some, List, [], ◌∷◌, ◌≡◌, refl, ap, lit, if◌then◌else◌,
}
use k8s_werf_operator_go.Base.Result.{Result, ok, err, message}
use k8s_werf_operator_go.Api.Registration.{
  GroupVersion, ApiObject, werf_bundle, werf_bundle_list, Schemes, group_version, scheme_builder,
  init_types, add_to_scheme,
}
use k8s_werf_operator_go.Converge.Builder.{GroupVersionKind, owner_references}
use k8s_werf_operator_go.Converge.Builder.Jobs.{owner_of}
use k8s_werf_operator_go.Command.Init.{kind_in, init, Registers, init-owner_references}
use k8s_werf_operator_go.Examples.Server.{new_bundle}

abbrev is_same : ApiObject → ApiObject → Bool
is_same werf_bundle werf_bundle = true
is_same werf_bundle_list werf_bundle_list = true
is_same _ _ = false

abbrev Scheme : Type 0
Scheme = List (ApiObject × GroupVersionKind)

abbrev kinds_of : Scheme → ApiObject → List GroupVersionKind
kinds_of [] o = []
kinds_of ((o', kind) ∷ scheme) o =
    let rest = kinds_of scheme o in if is_same o' o then kind ∷ [] else rest

abbrev or_unknown : List GroupVersionKind → Result (List GroupVersionKind)
or_unknown [] = err (message [])
or_unknown (kind ∷ kinds) = ok (kind ∷ kinds)

abbrev object_kinds : Scheme → ApiObject → Result (List GroupVersionKind)
object_kinds scheme o = or_unknown (kinds_of scheme o)

abbrev add_known : GroupVersion → List ApiObject → Scheme → Scheme
add_known gv [] scheme = scheme
add_known gv (o ∷ objects) scheme = (o, kind_in gv o) ∷ add_known gv objects scheme

abbrev schemes : Schemes Scheme (GroupVersion × List ApiObject)
schemes = record {
  new_scheme = [];
  new_scheme_builder = λ gv. (gv, []);
  register = λ builder objects. (builder.0, objects);
  add_all = λ builder scheme. (none, add_known builder.0 builder.1 scheme);
  add_client_go = λ scheme. (none, scheme);
}

kinds_of-known :
    (gv : GroupVersion) (objects : List ApiObject) (o : ApiObject) (scheme : Scheme)
    → Memᴰ o objects
    → kinds_of (add_known gv objects scheme) o ≡ kind_in gv o ∷ []
kinds_of-known gv [] o scheme h = elim h [ ]
kinds_of-known gv (werf_bundle ∷ objects) werf_bundle scheme h = refl
kinds_of-known gv (werf_bundle_list ∷ objects) werf_bundle_list scheme h = refl
kinds_of-known gv (werf_bundle ∷ objects) werf_bundle_list scheme (Memᴰ.head e) = cc
kinds_of-known gv (werf_bundle_list ∷ objects) werf_bundle scheme (Memᴰ.head e) = cc
kinds_of-known gv (werf_bundle ∷ objects) werf_bundle_list scheme (Memᴰ.tail h) =
    kinds_of-known gv objects werf_bundle_list scheme h
kinds_of-known gv (werf_bundle_list ∷ objects) werf_bundle scheme (Memᴰ.tail h) =
    kinds_of-known gv objects werf_bundle scheme h

schemes-Registers : Registers schemes object_kinds
schemes-Registers = record {
  client_go_adds_none = λ o. (message [], refl);
  adds_registered = λ gv objects o scheme added listed unknown.
      ap or_unknown (kinds_of-known gv objects o scheme listed);
}

init-owner_references_example :
    ((o : ApiObject)
      → object_kinds (add_known group_version (werf_bundle ∷ werf_bundle_list ∷ []) []) o
        ≡ ok (kind_in group_version o ∷ []))
    × (owner_references new_bundle (
          some (
            object_kinds
              (add_known group_version (werf_bundle ∷ werf_bundle_list ∷ []) [])
              werf_bundle))
        ≡ ok (
            owner_of new_bundle
              (record { group_version = lit "werf.io/v1alpha1"; kind = lit "WerfBundle" })))
unfolding init add_to_scheme init_types scheme_builder
init-owner_references_example = init-owner_references schemes schemes-Registers refl new_bundle
