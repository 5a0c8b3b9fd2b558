-- ===== src/Examples/Retries.antt =====
-- controllers/werfbundle_controller.go: polls of a registry that does not answer.
use k8s_werf_operator_go.Base.{some, [], ◌∷◌}
use k8s_werf_operator_go.Base.Result.{network, message}
use k8s_werf_operator_go.Controller.Cluster.{Env}
use k8s_werf_operator_go.Examples.Server.{World, new_bundle, start_with}

-- The registry cannot be reached.
abbrev silent : Env World
silent =
    let start = start_with new_bundle in
    record start {
      state = record (start.state) {
        listing = record { tags = []; new_etag = []; error = some (network (message (b'x' ∷ []))) };
      };
    }
