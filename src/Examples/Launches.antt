-- ===== src/Examples/Launches.antt =====
-- controllers/werfbundle_controller.go: the first poll of a new bundle.
use k8s_werf_operator_go.Controller.Cluster.{Env}
use k8s_werf_operator_go.Examples.Server.{World, new_bundle, start_with}

abbrev start : Env World
start = start_with new_bundle
