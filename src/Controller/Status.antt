-- ===== src/Controller/Status.antt =====
-- controllers/werfbundle_controller.go: `updateStatusSyncing`, `updateStatusSynced` and
-- `updateStatusFailed`.
use k8s_werf_operator_go.Base.{ℕ, none, some, [], if◌then◌else◌, GoString, is_empty}
use k8s_werf_operator_go.Base.Result.{Result}
use k8s_werf_operator_go.Api.{WerfBundle, WerfBundleStatus, Phase}
use k8s_werf_operator_go.Controller.Cluster.{Cluster, M, silently, update_status}

unfoldable pub syncing_status : WerfBundleStatus → GoString → WerfBundleStatus
syncing_status st tag = record st {
  phase = Phase.syncing;
  last_applied_tag = if is_empty tag then st.last_applied_tag else tag;
  last_error_message = [];
  last_sync_time = none;
}

unfoldable pub synced_status : WerfBundleStatus → GoString → ℕ → WerfBundleStatus
synced_status st tag now = record st {
  phase = Phase.synced;
  last_applied_tag = tag;
  last_error_message = [];
  last_sync_time = some now;
}

unfoldable pub failed_status : WerfBundleStatus → GoString → WerfBundleStatus
failed_status st message = record st { phase = Phase.failed; last_error_message = message }

abbrev pub with_status : WerfBundle → WerfBundleStatus → WerfBundle
with_status b st = record b { status = st }

module _ {S : Type 0} (c : Cluster S) where
  unfoldable pub update_status_syncing : WerfBundle → GoString → M S (Result WerfBundle)
  update_status_syncing b tag = update_status c (with_status b (syncing_status b.status tag))

  unfoldable pub update_status_synced : WerfBundle → GoString → M S (Result WerfBundle)
  update_status_synced b tag e =
      let (now, e') = silently c.now e in
      update_status c (with_status b (synced_status b.status tag now)) e'

  unfoldable pub update_status_failed : WerfBundle → GoString → M S (Result WerfBundle)
  update_status_failed b message = update_status c (with_status b (failed_status b.status message))
