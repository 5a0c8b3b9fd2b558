-- ===== src/Controller/Cluster.antt =====
-- What the reconciler is run on: the Kubernetes API, the registry, the clock and the random
-- numbers, as functions over a state that they may change; and the record of its calls.
use k8s_werf_operator_go.Base.{ℕ, Bool, true, false, Option, List, ◌∷◌, GoString}
use k8s_werf_operator_go.Base.Int.{ℤ, pos}
use k8s_werf_operator_go.Base.Maps.{GoMap}
use k8s_werf_operator_go.Base.Result.{Result, ok, err, GoError, Eff}
use k8s_werf_operator_go.Api.{WerfBundle, NamespacedName}
use k8s_werf_operator_go.Values.Fetch.{ValuesClient}
use k8s_werf_operator_go.Registry.Client.{Client, ListResult}
use k8s_werf_operator_go.Converge.Limits.{Quantity}
use k8s_werf_operator_go.Converge.Builder.{GroupVersionKind, Job}
use k8s_werf_operator_go.Converge.Logs.{LogClient}

-- Of a Job in the cluster, what the reconciler reads.
pub record LiveJob : Type 0 where
  pub name : GoString
  pub namespace : GoString
  pub succeeded : ℤ  -- int32
  pub failed : ℤ  -- int32

-- The ConfigMap that keeps long logs.
pub record LogConfigMap : Type 0 where
  pub name : GoString
  pub namespace : GoString
  pub output : GoString

-- `Update` and `Status().Update` answer with the object as the server has stored it, which takes
-- the place of the object given.
pub record Cluster (S : Type 0) : Type 0 where
  pub get_bundle : NamespacedName → Eff S (Result WerfBundle)
  pub update : WerfBundle → Eff S (Result WerfBundle)
  pub update_status : WerfBundle → Eff S (Result WerfBundle)
  pub get_job : NamespacedName → Eff S (Result LiveJob)
  pub create_job : Job → Eff S (Option GoError)
  pub get_service_account : NamespacedName → Eff S (Result (Unit {0}))
  pub create_config_map : LogConfigMap → Eff S (Option GoError)
  pub update_config_map : LogConfigMap → Eff S (Option GoError)
  pub values : ValuesClient S
  pub logs : LogClient S
  pub registry : Client S
  -- `metav1.Now`, `rand.Read` of four bytes, and what `rand.Intn` answers to a bound.
  pub now : Eff S ℕ
  pub rand_read : Eff S (Option (List ℕ))
  pub rand_intn : Eff S (ℕ → ℕ)

-- The libraries that the reconciler calls and that keep no state: controllerutil's finalizers and
-- controller references, the scheme, and parsers.
pub record Library : Type 0 where
  pub contains_finalizer : List GoString → GoString → Bool
  pub add_finalizer : List GoString → GoString → List GoString
  pub remove_finalizer : List GoString → GoString → List GoString
  pub set_controller_reference : WerfBundle → LogConfigMap → Option GoError
  pub object_kinds : Result (List GroupVersionKind)
  pub parse_quantity : GoString → Result Quantity
  pub parse_yaml : GoString → Result (GoMap GoString)
  pub parse_duration : GoString → Result ℤ

-- The calls that are recorded: those that change the cluster, the reads of Jobs and of
-- ServiceAccounts, and the listings of tags. The reads of bundles, ConfigMaps, Secrets, pods and logs
-- are not.
pub data Call : Type 0 where
  updated : WerfBundle → Call
  status_updated : WerfBundle → Call
  job_created : Job → Call
  config_map_created : LogConfigMap → Call
  config_map_updated : LogConfigMap → Call
  service_account_read : NamespacedName → Bool → Call
  tags_listed : ListResult → Call
  job_read : NamespacedName → Call

-- The cluster's state, with the recorded calls, the last one first.
pub record Env (S : Type 0) : Type 0 where
  pub state : S
  pub calls : List Call

abbrev pub M : Type 0 → Type 0 → Type 0
M S A = Env S → A × Env S

-- `ctrl.Result` with its `RequeueAfter` (0 asks for no requeue), an error, or a panic.
pub data Outcome : Type 0 where
  done : ℤ → Outcome
  failed : GoError → Outcome
  panicked : Outcome

abbrev pub no_requeue : Outcome
no_requeue = done (pos 0)

abbrev pub is_ok {ℓ} : {A : Type ℓ} → Result A → Bool
is_ok (ok a) = true
is_ok (err e) = false

module _ {S : Type 0} where
  -- A call that is not recorded.
  abbrev pub silently : {A : Type 0} → Eff S A → M S A
  silently f e = let (a, s) = f e.state in (a, record e { state = s })

  -- A call that is recorded; the record may name its answer.
  abbrev pub recorded : {A : Type 0} → Eff S A → (A → Call) → M S A
  recorded f call e = let (a, s) = f e.state in (a, record { state = s; calls = call a ∷ e.calls })

  module _ (c : Cluster S) where
    unfoldable pub update : WerfBundle → M S (Result WerfBundle)
    update b = recorded (c.update b) (λ _. updated b)

    unfoldable pub update_status : WerfBundle → M S (Result WerfBundle)
    update_status b = recorded (c.update_status b) (λ _. status_updated b)

    unfoldable pub create_job : Job → M S (Option GoError)
    create_job j = recorded (c.create_job j) (λ _. job_created j)

    unfoldable pub create_config_map : LogConfigMap → M S (Option GoError)
    create_config_map m = recorded (c.create_config_map m) (λ _. config_map_created m)

    unfoldable pub update_config_map : LogConfigMap → M S (Option GoError)
    update_config_map m = recorded (c.update_config_map m) (λ _. config_map_updated m)

    unfoldable pub get_job : NamespacedName → M S (Result LiveJob)
    get_job key = recorded (c.get_job key) (λ _. job_read key)

    unfoldable pub get_service_account : NamespacedName → M S (Result (Unit {0}))
    get_service_account key =
        recorded (c.get_service_account key) (λ r. service_account_read key (is_ok r))

    unfoldable pub list_tags : GoString → GoString → M S ListResult
    list_tags url last_etag =
        recorded (c.registry.list_tags_with_etag url last_etag) (λ r. tags_listed r)
