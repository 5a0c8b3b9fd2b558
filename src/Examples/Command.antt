-- ===== src/Examples/Command.antt =====
-- cmd/main.go: the command on a platform on which every call succeeds, or the health check fails.
use k8s_werf_operator_go.Base.{true, false, Option, none, some, List, [], ◌∷◌, lit, ◌≡◌, ◌↔◌, refl}
use k8s_werf_operator_go.Base.Result.{ok, GoError, message}
use k8s_werf_operator_go.Controller.Setup.{controller_spec, setup_with_manager}
use k8s_werf_operator_go.Command.{
  default_flags, TlsConfig, manager_options, with_authentication_and_authorization,
}
use k8s_werf_operator_go.Command.Servers.{configured, offered, AreFrom, manager_options-protects}
use k8s_werf_operator_go.Command.Start.{
  Call, config_read, manager_made, clientset_made, controller_completed, healthz_check_added,
  Platform, Ran, goes_on, exited, main, parse_flags, register,
}
use k8s_werf_operator_go.Command.Start.Steps.{seen, RunsAs}
use k8s_werf_operator_go.Command.Start.Order.{main-RunsAs}

abbrev config : TlsConfig (Unit {0})
config = record { next_protos = (b'h' ∷ b'2' ∷ []) ∷ []; rest = tt }

manager_options-protects_example :
    let options = manager_options {Rest = Unit {0}} default_flags in
    let metrics = options.metrics in
    let webhook = options.webhook_server in
    let f = default_flags in
    (configured metrics.tls_opts config
      ≡ record config { next_protos = offered f config.next_protos })
    × (configured webhook.tls_opts config
        ≡ record config { next_protos = offered f config.next_protos })
    × (metrics.bind_address ≡ f.metrics_addr)
    × ((metrics.secure_serving ≡ true) ↔ (f.secure_metrics ≡ true))
    × ((metrics.filter_provider ≡ some with_authentication_and_authorization)
        ↔ (f.secure_metrics ≡ true))
    × AreFrom f.metrics_cert_path f.metrics_cert_name f.metrics_cert_key metrics.certificates
    × AreFrom f.webhook_cert_path f.webhook_cert_name f.webhook_cert_key webhook.certificates
manager_options-protects_example = manager_options-protects default_flags config

-- The platform, with the answer to the health check.
abbrev platform : Option GoError → Platform (Unit {0}) (Unit {0}) (Unit {0}) (Unit {0}) (Unit {0})
platform healthy = record {
  parse = λ f args. goes_on f;
  get_config = λ n. (some tt, n);
  new_manager = λ config options n. (ok tt, n);
  new_for_config = λ mgr n. (ok tt, n);
  complete = λ mgr spec r n. (none, n);
  add_healthz_check = λ mgr name n. (healthy, n);
  add_readyz_check = λ mgr name n. (none, n);
  start = λ mgr n. (none, n);
}

abbrev run : Option GoError → Ran (Unit {0}) × List (Call (Unit {0}))
run healthy = seen (main (platform healthy) [] (record { state = tt; calls = [] }))

-- After the failure of the health check nothing more is called.
stops_at_health_check : run (some (message [])) ≡ (
  exited 1,
  healthz_check_added (lit "healthz") false
      ∷ controller_completed controller_spec true true
      ∷ clientset_made true
      ∷ manager_made (manager_options default_flags) true
      ∷ config_read true
      ∷ [],
)
unfolding main parse_flags register setup_with_manager
stops_at_health_check = refl

main-RunsAs_example : RunsAs (goes_on default_flags) (run none)
main-RunsAs_example = main-RunsAs (platform none) [] tt
