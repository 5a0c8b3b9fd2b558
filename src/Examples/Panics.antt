-- ===== src/Examples/Panics.antt =====
-- controllers/werfbundle_controller.go: a registry whose only tag has a large hash.
use k8s_werf_operator_go.Base.{
  none, some, [], ◌∷◌, ◌≡◌, ◌≢◌, ◌≤◌, ◌^◌, refl, subst, ap, arith, GoString, lit,
}
use k8s_werf_operator_go.Base.Int.{pos}
use k8s_werf_operator_go.Base.Result.{ok}
use k8s_werf_operator_go.Converge.JobName.{fnv32a}
use k8s_werf_operator_go.Controller.Cluster.{Cluster, panicked}
use k8s_werf_operator_go.Controller.Polling.{poll_interval}
use k8s_werf_operator_go.Controller.Reconcile.{reconcile}
use k8s_werf_operator_go.Controller.Guards.{KeepsSpec}
use k8s_werf_operator_go.Controller.Panics.{IsSound, HasLargeHashes}
use k8s_werf_operator_go.Controller.Panics.Chain.{reconcile-calm}
use k8s_werf_operator_go.Examples.Server.{World, server, library, request, new_bundle, start_with}

abbrev v2 : GoString
v2 = b'v' ∷ b'2' ∷ []

-- The server, and a registry with the tag `v2` in any state.
abbrev tagged : Cluster World
tagged = record server {
  registry = record {
    list_tags_with_etag = λ url etag w. (record { tags = v2 ∷ []; new_etag = []; error = none }, w);
  };
  update = λ b w. (ok b, record w { bundle = ok b });
}

tagged-KeepsSpec : KeepsSpec tagged
tagged-KeepsSpec = record {
  spec_kept = λ b b' s q. ground arith;
  namespace_kept = λ b b' s q. ground arith;
}

v2_hash : 2 ^ 28 ≤ fnv32a v2
unfolding fnv32a
v2_hash = omega arith

large : HasLargeHashes tagged
large url etag tag s q =
    let same : v2 ≡ tag = ap (λ o. elim o [ none ↦ v2 | some t ↦ t ]) q in
    subst (λ t. 2 ^ 28 ≤ fnv32a t) same v2_hash

quarter_of_an_hour : poll_interval library new_bundle.spec.registry.poll_interval ≡ pos 900000000000
unfolding poll_interval lit
quarter_of_an_hour = refl

sound : IsSound library new_bundle.spec
sound = record {
  interval = λ i q. let same = quarter_of_an_hour in ground (arith, q, same);
  cpu_limit = _;
  cpu_parses = refl;
  memory_limit = _;
  memory_parses = refl;
}

reconcile-calm_example : (reconcile tagged library request (start_with new_bundle)).0 ≢ panicked
reconcile-calm_example =
    reconcile-calm tagged library request (start_with new_bundle) tagged-KeepsSpec
      (λ b b' s q. ground arith) large refl sound
