-- ===== src/Controller/Panics/Chain.antt =====
-- controllers/werfbundle_controller.go: a reconciliation that nothing makes panic.
use k8s_werf_operator_go.Base.{
  ℕ, false, ◌≡◌, ◌≢◌, ◌≤◌, ◌^◌, inl, inr, refl, sym, subst, arith, GoString, get_last?,
  Option-cases,
}
use k8s_werf_operator_go.Base.Int.{ℤ}
use k8s_werf_operator_go.Base.Result.{ok, GoError, Result-cases}
use k8s_werf_operator_go.Api.{WerfBundle, NamespacedName, get_target_namespace}
use k8s_werf_operator_go.Registry.Backoff.{add_jitter}
use k8s_werf_operator_go.Converge.JobName.{fnv32a}
use k8s_werf_operator_go.Controller.Cluster.{
  Cluster, Library, Env, panicked, update, update_status, list_tags,
}
use k8s_werf_operator_go.Controller.Status.{with_status, update_status_syncing}
use k8s_werf_operator_go.Controller.Ensure.{start_job, ensure_job_exists}
use k8s_werf_operator_go.Controller.Polling.{
  requeue_jittered, poll_interval, polled_status, handle_registry_error, wait_for_tags, apply_tag,
  poll,
}
use k8s_werf_operator_go.Controller.Reconcile.{
  reconcile_validated, reconcile_active, reconcile_deleted, reconcile_present, reconcile,
  with_finalizers, finalizer_name,
}
use k8s_werf_operator_go.Controller.Guards.{KeepsSpec}
use k8s_werf_operator_go.Controller.Panics.{
  is_panic, IsSoundInterval, IsSound, HasLargeHashes, requeue_jittered-calm, finish-calm,
  build_job-returns, monitor_job_completion-calm, launch-calm,
}

module _ {S : Type 0} (c : Cluster S) (l : Library) where
  module _ (kept : KeepsSpec c) where
    update_status-IsSound :
        (b b' : WerfBundle) (e : Env S)
        → IsSound l b.spec
        → (update_status c b e).0 ≡ ok b'
        → IsSound l b'.spec
    unfolding update_status
    update_status-IsSound b b' e sound q =
        subst (IsSound l) (sym (kept.spec_kept b b' e.state q)) sound

    start_job-calm :
        (b : WerfBundle) (tag : GoString) (e : Env S)
        → IsSound l b.spec
        → 2 ^ 28 ≤ fnv32a tag
        → is_panic (start_job c l b tag e).0 ≡ false
    unfolding start_job update_status_syncing
    start_job-calm b tag e sound large = elim (Result-cases (update_status_syncing c b tag e).0) [
      | inl (b', q) ↦
          let (r, built) =
            build_job-returns c l b' tag (update_status_syncing c b tag e).1
              (update_status-IsSound _ b' e sound q) large in
          rw (q, start_job, built) (launch-calm c l b' r _)
      | inr (x, q) ↦ rw (q, start_job) refl
    ]

    ensure_job_exists-calm :
        (b : WerfBundle) (tag : GoString) (e : Env S)
        → IsSound l b.spec
        → 2 ^ 28 ≤ fnv32a tag
        → is_panic (ensure_job_exists c l b tag e).0 ≡ false
    unfolding ensure_job_exists
    ensure_job_exists-calm b tag e sound large =
        grind (arith, monitor_job_completion-calm, start_job-calm)

    handle_registry_error-calm :
        (b : WerfBundle) (x : GoError) (interval : ℤ) (e : Env S)
        → IsSoundInterval interval
        → is_panic (handle_registry_error c l b x interval e).0 ≡ false
    unfolding handle_registry_error
    handle_registry_error-calm b x interval e sound =
        let calm = requeue_jittered-calm (c.rand_intn e.state).0 interval sound in
        grind (arith, finish-calm, calm)

    wait_for_tags-calm :
        (b : WerfBundle) (interval : ℤ) (e : Env S)
        → IsSoundInterval interval
        → is_panic (wait_for_tags c l b interval e).0 ≡ false
    unfolding wait_for_tags
    wait_for_tags-calm b interval e sound =
        let calm : (intn : ℕ → ℕ) → is_panic (requeue_jittered (add_jitter intn interval)) ≡ false =
          λ intn. requeue_jittered-calm intn interval sound in
        grind (arith, calm)

    apply_tag-calm :
        (b : WerfBundle) (tag : GoString) (e : Env S)
        → IsSound l b.spec
        → 2 ^ 28 ≤ fnv32a tag
        → is_panic (apply_tag c l b tag e).0 ≡ false
    unfolding apply_tag
    apply_tag-calm b tag e sound large = grind (arith, finish-calm, ensure_job_exists-calm)

    module _ (hashes : HasLargeHashes c) where
      poll-calm :
          (b : WerfBundle) (e : Env S) → IsSound l b.spec → is_panic (poll c l b e).0 ≡ false
      unfolding poll list_tags
      poll-calm b e sound =
          let interval = poll_interval l b.spec.registry.poll_interval in
          let listed = list_tags c b.spec.registry.url b.status.last_etag e in
          let b' = with_status b (polled_status b.status listed.0.new_etag) in
          elim (Option-cases (listed.0.error)) [
            | inr (x, q) ↦
                rw (q, poll) (handle_registry_error-calm b x interval listed.1 sound.interval)
            | inl q ↦ elim (Option-cases (get_last? (listed.0.tags))) [
              | inl t ↦ rw (q, t, poll) (wait_for_tags-calm b' interval listed.1 sound.interval)
              | inr (tag, t) ↦
                  rw (q, t, poll)
                    (apply_tag-calm b' tag listed.1 sound
                      (hashes b.spec.registry.url b.status.last_etag tag e.state t))
            ]
          ]

      reconcile_validated-calm :
          (b : WerfBundle) (e : Env S)
          → IsSound l b.spec
          → is_panic (reconcile_validated c l b e).0 ≡ false
      unfolding reconcile_validated
      reconcile_validated-calm b e sound = grind (arith, poll-calm)

      reconcile_active-calm :
          (b : WerfBundle) (e : Env S)
          → IsSound l b.spec
          → is_panic (reconcile_active c l b e).0 ≡ false
      unfolding reconcile_active
      reconcile_active-calm b e sound =
          let target_namespace = get_target_namespace b.spec.converge b.meta.namespace in
          let resolved_status = record (b.status) {
            resolved_target_namespace = target_namespace;
          } in
          let resolved = update_status c (with_status b resolved_status) e in
          let same = reconcile_validated-calm b e sound in
          elim (Result-cases resolved.0) [
            | inl (b', q) ↦
                let other =
                  reconcile_validated-calm b' resolved.1 (update_status-IsSound _ b' e sound q) in
                grind (arith, finish-calm, same, q, other)
            | inr (x, q) ↦ grind (arith, finish-calm, same, q)
          ]

      module _
          (unchanged : (b b' : WerfBundle) (s : S)
            → (c.update b s).0 ≡ ok b'
            → b'.spec ≡ b.spec) where
        update-IsSound :
            (b b' : WerfBundle) (e : Env S)
            → IsSound l b.spec
            → (update c b e).0 ≡ ok b'
            → IsSound l b'.spec
        unfolding update
        update-IsSound b b' e sound q = subst (IsSound l) (sym (unchanged b b' e.state q)) sound

        reconcile_deleted-calm :
            (b : WerfBundle) (e : Env S) → is_panic (reconcile_deleted c l b e).0 ≡ false
        unfolding reconcile_deleted
        reconcile_deleted-calm b e = grind (arith, finish-calm)

        reconcile_present-calm :
            (b : WerfBundle) (e : Env S)
            → IsSound l b.spec
            → is_panic (reconcile_present c l b e).0 ≡ false
        unfolding reconcile_present
        reconcile_present-calm b e sound =
            let finalizers = l.add_finalizer b.meta.finalizers finalizer_name in
            let held = update c (with_finalizers b finalizers) e in
            let same = reconcile_active-calm b e sound in
            elim (Result-cases held.0) [
              | inl (b', q) ↦
                  let other = reconcile_active-calm b' held.1 (update-IsSound _ b' e sound q) in
                  grind (arith, same, q, other)
              | inr (x, q) ↦ grind (arith, same, q)
            ]

-- A reconciliation does not panic if the poll interval of the bundle that it reads is none of 1 to 9
-- nanoseconds, its resource limits are quantities and every tag that the registry can list last has a
-- hash of at least 2 ^ 28, whatever fails. The API server is only asked to answer an update, and an
-- update of the status, with the spec that it was given.
pub reconcile-calm :
    {S : Type 0} (c : Cluster S) (l : Library) (request : NamespacedName) (e : Env S)
    {b : WerfBundle}
    → KeepsSpec c
    → ((b b' : WerfBundle) (s : S) → (c.update b s).0 ≡ ok b' → b'.spec ≡ b.spec)
    → HasLargeHashes c
    → (c.get_bundle request e.state).0 ≡ ok b
    → IsSound l b.spec
    → (reconcile c l request e).0 ≢ panicked
unfolding reconcile
reconcile-calm c l request e {b} kept unchanged hashes read sound panics = grind (
  arith,
  reconcile_present-calm c l kept hashes unchanged,
  reconcile_deleted-calm c l kept hashes unchanged,
)
