-- ===== src/Controller/SingleJob/NewTags.antt =====
-- The Job that a reconciliation creates is for a tag that the status does not name as applied.
use k8s_werf_operator_go.Base.{
  Option, none, some, List, [], ◌∷◌, ◌≡◌, ◌≢◌, ◌⊎◌, inl, inr, refl, sym, ap, arith, GoString, ◌++◌,
  lit, get_last?, str_eq, str_eq_refl, Bool-cases, Option-cases, is_empty, subst,
}
use k8s_werf_operator_go.Base.Result.{Result, ok, err, Result-cases, is_not_found, error_text}
use k8s_werf_operator_go.Api.{WerfBundle, NamespacedName, get_target_namespace}
use k8s_werf_operator_go.Converge.Builder.{Job, job_labels}
use k8s_werf_operator_go.Controller.Cluster.{
  Call, status_updated, job_created, Cluster, Library, Env, update_status, create_job, get_job,
  list_tags,
}
use k8s_werf_operator_go.Controller.Status.{
  syncing_status, failed_status, update_status_syncing, update_status_synced, update_status_failed,
  with_status,
}
use k8s_werf_operator_go.Controller.Ensure.{
  track_job, build_job, launch, start_job, ensure_job_exists,
}
use k8s_werf_operator_go.Controller.Polling.{apply_tag, poll, polled_status}
use k8s_werf_operator_go.Controller.Reconcile.{validate_service_account, reconcile_validated}
use k8s_werf_operator_go.Controller.Applied.{syncing_status-tag}
use k8s_werf_operator_go.Controller.Guards.{build_job-IsJobOf}
use k8s_werf_operator_go.Controller.SingleJob.{
  created_jobs, monitor_job_completion-jobs, handle_registry_error-jobs, wait_for_tags-jobs,
  validate_service_account-jobs,
}

-- The labels of a Job are for the tag.
pub record IsForTag (tag : GoString) (job : Job) : Type 0 where
  pub bundle_name : GoString
  pub labelled : job.labels ≡ job_labels bundle_name tag

-- The calls end with the deployment of the tag: the status is written, which names the tag as applied
-- (if the tag is not empty), then a Job for the tag is created, and then the status is written again.
-- The other Jobs that the calls create are those before.
pub record IsDeployed (tag : GoString) (before : List Job) (calls : List Call) : Type 0 where
  pub announced : WerfBundle
  pub job : Job
  pub recorded : WerfBundle
  pub earlier : List Call
  pub last_calls :
      calls ≡ status_updated recorded ∷ job_created job ∷ status_updated announced ∷ earlier
  pub others : created_jobs earlier ≡ before
  pub for_tag : IsForTag tag job
  pub names_tag : tag ≢ [] → announced.status.last_applied_tag ≡ tag

-- The calls create the Jobs before, or one more, for the tag.
abbrev AddsFor : GoString → List Job → List Call → Type 0
AddsFor tag before calls = (created_jobs calls ≡ before) ⊎ IsDeployed tag before calls

-- The calls create the Jobs before, or one more, for another tag than the one that is applied.
abbrev pub AddsNew : GoString → List Job → List Call → Type 0
AddsNew applied before calls =
    (created_jobs calls ≡ before)
    ⊎ ((tag : GoString) × (tag ≢ applied) × IsDeployed tag before calls)

AddsFor-AddsNew :
    {tag applied : GoString} {before : List Job} {calls : List Call}
    → tag ≢ applied
    → AddsFor tag before calls
    → AddsNew applied before calls
AddsFor-AddsNew new (inl same) = inl same
AddsFor-AddsNew {tag} new (inr deployed) = inr (tag, new, deployed)

module _ {S : Type 0} (c : Cluster S) (l : Library) where
  build_job-IsForTag :
      (b : WerfBundle) (tag : GoString) (e : Env S) {job : Job}
      → (build_job c l b tag e).0 ≡ some (ok job)
      → IsForTag tag job
  build_job-IsForTag b tag e built = record {
    bundle_name = b.meta.name;
    labelled = (build_job-IsJobOf c l b tag e built).tagged;
  }

  -- A Job's creation is followed by one status update, whether it succeeds or not.
  launch-ends :
      (b : WerfBundle) (built : Option (Result Job)) (e : Env S)
      → (created_jobs (launch c l b built e).1.calls ≡ created_jobs e.calls)
        ⊎ ((job : Job) × (recorded : WerfBundle) × (built ≡ some (ok job))
            × ((launch c l b built e).1.calls
                ≡ status_updated recorded ∷ job_created job ∷ e.calls))
  unfolding launch create_job update_status update_status_failed
  launch-ends b none e = inl refl
  launch-ends b (some (err x)) e = inl refl
  launch-ends b (some (ok job)) e = elim (Option-cases (c.create_job job e.state).0) [
    | inl q ↦ inr (job, track_job b job, refl, ground (arith, q))
    | inr (x, q) ↦ inr (
      job,
      with_status b (failed_status b.status (lit "Failed to create Job: " ++ error_text x)),
      refl,
      ground (arith, q),
    )
  ]

  start_job-AddsFor :
      (b : WerfBundle) (tag : GoString) (e : Env S)
      → AddsFor tag (created_jobs e.calls) (start_job c l b tag e).1.calls
  unfolding start_job build_job update_status_syncing update_status
  start_job-AddsFor b tag e = elim (Result-cases (update_status_syncing c b tag e).0) [
    | inl (b', q) ↦
        let after = (update_status_syncing c b tag e).1 in
        let built = build_job c l b' tag after in
        rw (q, start_job)
          (elim (launch-ends b' built.0 built.1) [
            | inl same ↦ inl same
            | inr (job, recorded, made, ends) ↦ inr (record {
              announced = with_status b (syncing_status b.status tag);
              job = job;
              recorded = recorded;
              earlier = e.calls;
              last_calls = ends;
              others = refl;
              for_tag = build_job-IsForTag b' tag after made;
              names_tag = syncing_status-tag b.status tag;
            })
          ])
    | inr (x, q) ↦ rw (q, start_job) (inl refl)
  ]

  ensure_job_exists-AddsFor :
      (b : WerfBundle) (tag : GoString) (e : Env S)
      → AddsFor tag (created_jobs e.calls) (ensure_job_exists c l b tag e).1.calls
  unfolding ensure_job_exists get_job
  ensure_job_exists-AddsFor b tag e =
      let key : NamespacedName = record {
        name = b.status.active_job_name;
        namespace = get_target_namespace b.spec.converge b.meta.namespace;
      } in
      elim (Bool-cases (is_empty b.status.active_job_name)) [
        | inl idle ↦ rw (idle, ensure_job_exists) (start_job-AddsFor b tag e)
        | inr busy ↦ elim (Result-cases (get_job c key e).0) [
          | inl (job, q) ↦
              rw (busy, ensure_job_exists, q)
                (inl (monitor_job_completion-jobs c l b job tag (get_job c key e).1))
          | inr (x, q) ↦ elim (Bool-cases (is_not_found x)) [
            | inl gone ↦
                rw (busy, ensure_job_exists, q, gone)
                  (start_job-AddsFor (with_status b (record (b.status) { active_job_name = [] }))
                    tag (get_job c key e).1)
            | inr other ↦ rw (busy, ensure_job_exists, q, other) (inl refl)
          ]
        ]
      ]

  apply_tag-AddsNew :
      (b : WerfBundle) (tag : GoString) (e : Env S)
      → AddsNew b.status.last_applied_tag (created_jobs e.calls) (apply_tag c l b tag e).1.calls
  unfolding apply_tag update_status_synced update_status
  apply_tag-AddsNew b tag e = elim (Bool-cases (str_eq b.status.last_applied_tag tag)) [
    | inl same ↦ inl (ground (arith, same))
    | inr other ↦
        let new : tag ≢ b.status.last_applied_tag =
          λ q. cc (ap (λ s. str_eq s tag) (sym q), str_eq_refl tag, other) in
        rw (other, apply_tag) (AddsFor-AddsNew new (ensure_job_exists-AddsFor b tag e))
  ]

  poll-AddsNew :
      (b : WerfBundle) (e : Env S)
      → AddsNew b.status.last_applied_tag (created_jobs e.calls) (poll c l b e).1.calls
  unfolding poll list_tags polled_status
  poll-AddsNew b e =
      let listed = list_tags c b.spec.registry.url b.status.last_etag e in
      let b' : WerfBundle = with_status b (polled_status b.status listed.0.new_etag) in
      elim (Option-cases listed.0.error) [
        | inl p ↦ elim (Option-cases (get_last? listed.0.tags)) [
          | inl q ↦ rw (p, q, poll) (inl (wait_for_tags-jobs c l b' _ listed.1))
          | inr (tag, q) ↦ rw (p, q, poll) (apply_tag-AddsNew b' tag listed.1)
        ]
        | inr (x, p) ↦ rw (p, poll) (inl (handle_registry_error-jobs c l b x _ listed.1))
      ]

  pub reconcile_validated-AddsNew :
      (b : WerfBundle) (e : Env S)
      → AddsNew b.status.last_applied_tag
          (created_jobs e.calls)
          (reconcile_validated c l b e).1.calls
  unfolding reconcile_validated
  reconcile_validated-AddsNew b e =
      let checked = (validate_service_account c l b e).1 in
      let none_yet = validate_service_account-jobs c l b e in
      elim (Bool-cases (is_empty b.spec.converge.service_account_name)) [
        | inl unnamed ↦ rw (unnamed, reconcile_validated) (poll-AddsNew b e)
        | inr named ↦ elim (Option-cases (validate_service_account c l b e).0) [
          | inl p ↦
              rw (named, reconcile_validated, p)
                (subst (λ jobs. AddsNew b.status.last_applied_tag jobs (poll c l b checked).1.calls)
                  none_yet (poll-AddsNew b checked))
          | inr (x, p) ↦ rw (named, reconcile_validated, p) (inl none_yet)
        ]
      ]
