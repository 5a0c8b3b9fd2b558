-- ===== src/Examples/Jobs.antt =====
-- internal/converge/job.go: the theorem on `Build`, at a bundle with no sources of values.
use k8s_werf_operator_go.Base.{ℕ, some, none, Option, List, [], ◌∷◌, ◌++◌, ◌≡◌, refl, GoString, lit}
use k8s_werf_operator_go.Base.Result.{ok, Eff}
use k8s_werf_operator_go.Api.{get_target_namespace}
use k8s_werf_operator_go.Converge.JobName.{
  job_name, tag_hash, fnv32a, format_hex32, hex_digits, hex_digit, slice_to, encode_to_string,
  assemble_name,
}
use k8s_werf_operator_go.Converge.Limits.{Quantity, must_parse_resource, get_resource_limit}
use k8s_werf_operator_go.Converge.Builder.{
  Builder, Job, GroupVersionKind, build, build_for, build_args, base_args, finish_job, make_job,
  owner_references,
}
use k8s_werf_operator_go.Converge.Builder.Jobs.{
  IsConvergeJob, IsFlags, owner_of, build-IsConvergeJob,
}
use k8s_werf_operator_go.Base.Int.{pos}
use k8s_werf_operator_go.Examples.Server.{library, new_bundle}

abbrev pub v2 : GoString
v2 = b'v' ∷ b'2' ∷ []

abbrev rand_read : Eff (Unit {0}) (Option (List ℕ))
rand_read s = (some (1 ∷ 2 ∷ 3 ∷ 4 ∷ []), s)

abbrev pub kind : GroupVersionKind
kind = record { group_version = b'v' ∷ b'1' ∷ []; kind = b'W' ∷ [] }

abbrev builder : Builder (Unit {0})
builder = record { werf = some new_bundle; scheme = some (ok (kind ∷ [])); values_resolver = none }

abbrev pub quantity : GoString → Quantity
quantity s = record { value = pos 1; scale = pos 0; format = s }

abbrev pub job : Job
unfolding lit make_job
job =
    make_job new_bundle v2 (lit "app-974a4b21-01020304") (base_args new_bundle.spec.registry.url v2)
      (quantity (lit "1")) (quantity (lit "1Gi")) (owner_of new_bundle kind)

build-IsConvergeJob_example :
    IsConvergeJob library.parse_quantity new_bundle v2 job
    × (job_name new_bundle.meta.name v2 (rand_read tt).0 ≡ some job.name)
    × ((flags : List GoString) × (job.args ≡ base_args new_bundle.spec.registry.url v2 ++ flags)
        × IsFlags new_bundle builder.values_resolver tt flags)
unfolding build build_for build_args base_args job_name tag_hash fnv32a format_hex32 hex_digits
    hex_digit slice_to encode_to_string assemble_name must_parse_resource get_resource_limit
    finish_job make_job owner_references get_target_namespace lit
build-IsConvergeJob_example =
    build-IsConvergeJob library.parse_quantity builder new_bundle v2 rand_read tt refl refl
