-- ===== src/Examples/Server.antt =====
-- An API server in memory, with one bundle, one Job and one ServiceAccount, a registry with a fixed
-- listing, and simple versions of the libraries that the reconciler calls.
use k8s_werf_operator_go.Base.{
  Bool, false, none, some, List, [], ◌∷◌, ◌++◌, ◌||◌, arith, GoString, lit, str_eq,
}
use k8s_werf_operator_go.Base.Int.{pos}
use k8s_werf_operator_go.Base.Result.{Result, ok, err, api, not_found}
use k8s_werf_operator_go.Api.{WerfBundle, Phase, JobStatus, NamespacedName}
use k8s_werf_operator_go.Registry.Client.{ListResult}
use k8s_werf_operator_go.Controller.Cluster.{Cluster, Library, LiveJob, Env}
use k8s_werf_operator_go.Controller.Statuses.{KeepsStatus}
use k8s_werf_operator_go.Controller.Guards.{KeepsSpec}
use k8s_werf_operator_go.Controller.Isolation.{KeepsIdentity}

pub record World : Type 0 where
  pub bundle : Result WerfBundle
  pub job : Result LiveJob
  pub account : Result (Unit {0})
  pub listing : ListResult

-- `Update` does not touch the status.
abbrev store_object : WerfBundle → Result WerfBundle → World → Result WerfBundle × World
store_object b (err x) w = (err x, w)
store_object b (ok b') w = (
  ok (record b { status = b'.status }),
  record w { bundle = ok (record b { status = b'.status }) },
)

abbrev pub server : Cluster World
server = record {
  get_bundle = λ k w. (w.bundle, w);
  update = λ b w. store_object b w.bundle w;
  update_status = λ b w. (ok b, record w { bundle = ok b });
  get_job = λ k w. (w.job, w);
  create_job = λ j w. (
    none,
    record w {
      job =
          ok (record { name = j.name; namespace = j.namespace; succeeded = pos 0; failed = pos 0 });
    },
  );
  get_service_account = λ k w. (w.account, w);
  create_config_map = λ m w. (none, w);
  update_config_map = λ m w. (none, w);
  values = record {
    get_config_map = λ k w. (err (api not_found []), w);
    get_secret = λ k w. (err (api not_found []), w);
  };
  logs = record {
    list_pods = λ ns j w. (ok (record { name = j; containers = (b'w' ∷ []) ∷ [] } ∷ []), w);
    stream_logs = λ ns p k n w. (ok (ok (b'd' ∷ b'o' ∷ b'n' ∷ b'e' ∷ [])), w);
  };
  registry = record { list_tags_with_etag = λ url etag w. (w.listing, w) };
  now = λ w. (1000, w);
  rand_read = λ w. (some (1 ∷ 2 ∷ 3 ∷ 4 ∷ []), w);
  rand_intn = λ w. ((λ n. 0), w);
}

abbrev pub has : List GoString → GoString → Bool
has [] f = false
has (g ∷ fs) f = str_eq g f || has fs f

abbrev pub library : Library
library = record {
  contains_finalizer = has;
  add_finalizer = λ fs f. fs ++ f ∷ [];
  remove_finalizer = λ fs f. [];
  set_controller_reference = λ b m. none;
  object_kinds = ok (record { group_version = b'v' ∷ b'1' ∷ []; kind = b'W' ∷ [] } ∷ []);
  parse_quantity = λ s. ok (record { value = pos 1; scale = pos 0; format = s });
  parse_yaml = λ s. ok [];
  parse_duration = λ s. ok (pos 900000000000);
}

pub server-KeepsStatus : KeepsStatus server
server-KeepsStatus = record {
  update_keeps = λ k s b b' fs read q. ground arith;
  update_status_keeps = λ b b' s q. ground arith;
}

pub server-KeepsSpec : KeepsSpec server
server-KeepsSpec = record {
  spec_kept = λ b b' s q. ground arith;
  namespace_kept = λ b b' s q. ground arith;
}

pub server-KeepsIdentity : KeepsIdentity server
server-KeepsIdentity = record {
  update_identity = λ b b' s q. ground arith;
  update_status_identity = λ b b' s q. ground arith;
}

abbrev pub request : NamespacedName
unfolding lit
request = record { name = lit "app"; namespace = lit "ops" }

-- A bundle in the namespace `ops`.
abbrev pub bundle_with : GoString → GoString → WerfBundle
unfolding lit
bundle_with account target = record {
  meta = record {
    name = lit "app";
    namespace = lit "ops";
    uid = lit "u1";
    resource_version = lit "7";
    deletion_timestamp = none;
    finalizers = [];
  };
  spec = record {
    registry = record { url = lit "ghcr.io/org/app"; secret_ref = none; poll_interval = lit "15m" };
    converge = record {
      service_account_name = account;
      target_namespace = target;
      resource_limits = none;
      log_retention_days = none;
      values_from = [];
    };
  };
  status = record {
    phase = Phase.unset;
    last_applied_tag = [];
    last_sync_time = none;
    last_error_message = [];
    last_etag = [];
    consecutive_failures = pos 0;
    last_error_time = none;
    active_job_name = [];
    last_job_status = JobStatus.unset;
    last_job_logs = [];
    resolved_target_namespace = [];
  };
}

-- A new bundle that deploys to `prod` with the ServiceAccount `sa`.
abbrev pub new_bundle : WerfBundle
unfolding lit
new_bundle = bundle_with (lit "sa") (lit "prod")

-- What the registry answers: the tags `v1` and `v2`.
abbrev pub listing : ListResult
unfolding lit
listing = record { tags = lit "v1" ∷ lit "v2" ∷ []; new_etag = lit "e"; error = none }

abbrev pub start_with : WerfBundle → Env World
start_with b = record {
  state = record {
    bundle = ok b;
    job = err (api not_found []);
    account = ok tt;
    listing = listing;
  };
  calls = [];
}
