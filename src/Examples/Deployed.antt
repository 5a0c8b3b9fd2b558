-- ===== src/Examples/Deployed.antt =====
-- internal/values, internal/converge: a bundle whose ConfigMap has one value with a comma in it.
use k8s_werf_operator_go.Base.{
  some, none, List, [], ◌∷◌, ◌++◌, ◌≡◌, refl, arith, false, GoString, lit, str_eq,
}
use k8s_werf_operator_go.Base.Maps.{GoMap, lookup, insert}
use k8s_werf_operator_go.Base.Result.{ok, err, api, not_found}
use k8s_werf_operator_go.Base.Sort.{sort_strings}
use k8s_werf_operator_go.Api.{WerfBundle, get_target_namespace}
use k8s_werf_operator_go.Values.Merge.{merge_maps, last_value}
use k8s_werf_operator_go.Values.Escape.{escape_value}
use k8s_werf_operator_go.Values.Fetch.{fetch_config_map, parse_and_merge_config_map_data}
use k8s_werf_operator_go.Values.SetFlags.{generate_set_flags}
use k8s_werf_operator_go.Values.Resolver.{resolve_values, resolve_loop, fetch_refs}
use k8s_werf_operator_go.Values.Resolver.Sources.{Resolves}
use k8s_werf_operator_go.Converge.JobName.{
  job_name, tag_hash, fnv32a, format_hex32, hex_digits, hex_digit, slice_to, encode_to_string,
  assemble_name,
}
use k8s_werf_operator_go.Converge.Limits.{must_parse_resource, get_resource_limit}
use k8s_werf_operator_go.Converge.Builder.{
  Job, build, build_for, build_args, base_args, finish_job, make_job, owner_references, new_builder,
  with_scheme, with_values_resolver,
}
use k8s_werf_operator_go.Converge.Builder.Jobs.{owner_of}
use k8s_werf_operator_go.Controller.Cluster.{Cluster, Library}
use k8s_werf_operator_go.Controller.Ensure.{build_job, job_builder}
use k8s_werf_operator_go.Testing.SetFlags.{extract_set_flags, extract_loop, assign, split_at_equals}
use k8s_werf_operator_go.Testing.SetFlags.Reading.{value_of}
use k8s_werf_operator_go.Testing.SetFlags.Deployed.{build_job-value_of}
use k8s_werf_operator_go.Examples.Server.{World, server, library, new_bundle, start_with}
use k8s_werf_operator_go.Examples.Jobs.{v2, kind, quantity}

abbrev app_name : GoString
unfolding lit
app_name = lit "app.name"

abbrev text : GoString
unfolding lit
text = lit "a,b"

-- Any document has this value.
abbrev resolved : GoMap GoString
resolved = (app_name, text) ∷ []

abbrev parsing : Library
parsing = record library { parse_yaml = λ s. ok resolved }

-- The ConfigMap has one document.
abbrev storing : Cluster World
storing = record server {
  values = record {
    get_config_map = λ k w. (ok ((text, text) ∷ []), w);
    get_secret = λ k w. (err (api not_found []), w);
  };
}

abbrev configured : WerfBundle
configured = record new_bundle {
  spec = record (new_bundle.spec) {
    converge = record (new_bundle.spec.converge) {
      values_from = record { config_map_ref = some text; secret_ref = none; optional = false } ∷ [];
    };
  };
}

abbrev job : Job
unfolding lit make_job
job =
    make_job configured v2 (lit "app-974a4b21-01020304")
      (base_args configured.spec.registry.url v2 ++ lit "--set" ∷ lit "app.name=a\\,b" ∷ [])
      (quantity (lit "1")) (quantity (lit "1Gi")) (owner_of configured kind)

build_job-value_of_example :
    (maps : List (GoMap GoString)) × Resolves parsing.parse_yaml storing.values
      configured.meta.namespace
      (get_target_namespace configured.spec.converge configured.meta.namespace)
      0
      (storing.rand_read (start_with configured).state).1
      configured.spec.converge.values_from
      maps
    × ((k : GoString) → value_of k (extract_set_flags (some job)) ≡ last_value k maps)
unfolding lit build_job job_builder new_builder with_scheme with_values_resolver build build_for
    build_args base_args job_name tag_hash fnv32a format_hex32 hex_digits hex_digit slice_to
    encode_to_string assemble_name finish_job must_parse_resource get_resource_limit
    owner_references make_job get_target_namespace resolve_values resolve_loop fetch_refs
    fetch_config_map parse_and_merge_config_map_data merge_maps insert generate_set_flags
    escape_value sort_strings lookup str_eq
build_job-value_of_example =
    build_job-value_of storing parsing configured v2 (start_with configured) refl
      (λ e. ground arith) refl (refl, tt)

flag_read : extract_set_flags (some job) ≡ (app_name, lit "a\\,b") ∷ []
unfolding extract_set_flags extract_loop assign split_at_equals str_eq lit base_args make_job insert
flag_read = refl
