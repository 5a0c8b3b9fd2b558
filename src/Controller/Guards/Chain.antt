-- ===== src/Controller/Guards/Chain.antt =====
-- The guards of a Job's creation, carried through `Reconcile`.
use mathlib.Core.List.{Memᴰ}
use k8s_werf_operator_go.Base.{
  none, some, [], ◌≡◌, refl, arith, GoString, sym, inl, inr, ap, is_empty, Bool-cases, get_last?,
  true, Option-cases,
}
use k8s_werf_operator_go.Base.Result.{ok, Result-cases, is_not_found}
use k8s_werf_operator_go.Api.{WerfBundle, NamespacedName, get_target_namespace}
use k8s_werf_operator_go.Rbac.{validate_service_account_exists}
use k8s_werf_operator_go.Controller.Cluster.{
  is_ok, Cluster, Library, service_account_read, Env, update_status, get_job, get_service_account,
  list_tags,
}
use k8s_werf_operator_go.Controller.Status.{
  update_status_syncing, update_status_synced, with_status,
}
use k8s_werf_operator_go.Controller.Ensure.{build_job, start_job, ensure_job_exists}
use k8s_werf_operator_go.Controller.Polling.{apply_tag, poll, polled_status}
use k8s_werf_operator_go.Controller.Reconcile.{validate_service_account}
use k8s_werf_operator_go.Controller.Guards.{
  account_of, AllGuarded, KeepsSpec, HasAccount, HasTag, HasTag-cons, HasAccount-kept,
  IsJobOf-IsGuarded, build_job-IsJobOf,
}
use k8s_werf_operator_go.Controller.Guards.Updates.{
  update_status_syncing-AllGuarded, update_status_synced-AllGuarded,
  monitor_job_completion-AllGuarded, launch-AllGuarded, handle_registry_error-AllGuarded,
  wait_for_tags-AllGuarded,
}

module _ {S : Type 0} (c : Cluster S) (l : Library) where
  -- A ServiceAccount that is found is in the calls.
  get_service_account-read :
      (key : NamespacedName) (e : Env S) {found : Unit {0}}
      → (get_service_account c key e).0 ≡ ok found
      → Memᴰ (service_account_read key true) (get_service_account c key e).1.calls
  unfolding get_service_account
  get_service_account-read key e q =
      Memᴰ.head (ap (λ r. service_account_read key (is_ok r)) (sym q))

  validate_service_account_exists-read :
      (name namespace : GoString) (e : Env S)
      → (validate_service_account_exists (get_service_account c) name namespace e).0 ≡ none
      → Memᴰ
          (service_account_read (account_of name namespace) true)
          (validate_service_account_exists (get_service_account c) name namespace e).1.calls
  unfolding validate_service_account_exists
  validate_service_account_exists-read name namespace e h = grind (arith, get_service_account-read)

  pub validate_service_account-HasAccount :
      (b : WerfBundle) (e : Env S)
      → (validate_service_account c l b e).0 ≡ none
      → HasAccount b (validate_service_account c l b e).1.calls
  unfolding validate_service_account
  validate_service_account-HasAccount b e h named =
      grind (arith, validate_service_account_exists-read)

module _ {S : Type 0} (c : Cluster S) (l : Library) (server : KeepsSpec c) where
  update_status_syncing-HasAccount :
      (b : WerfBundle) (tag : GoString) (e : Env S) {b' : WerfBundle}
      → (update_status_syncing c b tag e).0 ≡ ok b'
      → HasAccount b e.calls
      → HasAccount b' (update_status_syncing c b tag e).1.calls
  unfolding update_status_syncing update_status
  update_status_syncing-HasAccount b tag e {b'} q =
      HasAccount-kept b b' _ (server.spec_kept _ b' e.state q)
        (server.namespace_kept _ b' e.state q)

  update_status_syncing-HasTag :
      (b : WerfBundle) (tag listed : GoString) (e : Env S)
      → HasTag listed e.calls
      → HasTag listed (update_status_syncing c b tag e).1.calls
  unfolding update_status_syncing update_status
  update_status_syncing-HasTag b tag listed e = HasTag-cons _

  start_job-AllGuarded :
      (b : WerfBundle) (tag : GoString) (e : Env S)
      → HasAccount b e.calls
      → HasTag tag e.calls
      → AllGuarded e.calls
      → AllGuarded (start_job c l b tag e).1.calls
  unfolding start_job build_job
  start_job-AllGuarded b tag e a t h = elim (Result-cases (update_status_syncing c b tag e).0) [
    | inl (b', q) ↦
        let a' : HasAccount b' (update_status_syncing c b tag e).1.calls =
          update_status_syncing-HasAccount b tag e q a in
        let t' : HasTag tag (update_status_syncing c b tag e).1.calls =
          update_status_syncing-HasTag b tag tag e t in
        let h' : AllGuarded (update_status_syncing c b tag e).1.calls =
          update_status_syncing-AllGuarded c b tag e h in
        rw (q, start_job)
          (launch-AllGuarded c l b' _ _
            (λ job built.
              IsJobOf-IsGuarded b' tag job (update_status_syncing c b tag e).1.calls
                (build_job-IsJobOf c l b' tag (update_status_syncing c b tag e).1 built) a' t')
            h')
    | inr (x, q) ↦ rw (q, start_job) (update_status_syncing-AllGuarded c b tag e h)
  ]

  -- After the active Job was read and not found.
  start_job-after_read :
      (b : WerfBundle) (key : NamespacedName) (tag : GoString) (e : Env S)
      → HasAccount b e.calls
      → HasTag tag e.calls
      → AllGuarded e.calls
      → AllGuarded
          (start_job c l
            (with_status b (record (b.status) { active_job_name = [] }))
            tag
            (get_job c key e).1).1.calls
  unfolding get_job
  start_job-after_read b key tag e a t h =
      start_job-AllGuarded (with_status b (record (b.status) { active_job_name = [] })) tag
        (get_job c key e).1 (λ named. Memᴰ.tail (a named)) (HasTag-cons _ t) h

  get_job-AllGuarded :
      (key : NamespacedName) (e : Env S) → AllGuarded e.calls → AllGuarded (get_job c key e).1.calls
  unfolding get_job
  get_job-AllGuarded key e h = h

  ensure_job_exists-AllGuarded :
      (b : WerfBundle) (tag : GoString) (e : Env S)
      → HasAccount b e.calls
      → HasTag tag e.calls
      → AllGuarded e.calls
      → AllGuarded (ensure_job_exists c l b tag e).1.calls
  unfolding ensure_job_exists
  ensure_job_exists-AllGuarded b tag e a t h =
      let key : NamespacedName =
        account_of b.status.active_job_name
          (get_target_namespace b.spec.converge b.meta.namespace) in
      elim (Bool-cases (is_empty b.status.active_job_name)) [
        | inl idle ↦ rw (idle, ensure_job_exists) (start_job-AllGuarded b tag e a t h)
        | inr busy ↦ elim (Result-cases (get_job c key e).0) [
          | inl (job, q) ↦
              rw (busy, ensure_job_exists, q)
                (monitor_job_completion-AllGuarded c l b job tag (get_job c key e).1
                  (get_job-AllGuarded key e h))
          | inr (x, q) ↦ elim (Bool-cases (is_not_found x)) [
            | inl gone ↦
                rw (busy, ensure_job_exists, q, gone) (start_job-after_read b key tag e a t h)
            | inr other ↦ rw (busy, ensure_job_exists, q, other) (get_job-AllGuarded key e h)
          ]
        ]
      ]

  apply_tag-AllGuarded :
      (b : WerfBundle) (tag : GoString) (e : Env S)
      → HasAccount b e.calls
      → HasTag tag e.calls
      → AllGuarded e.calls
      → AllGuarded (apply_tag c l b tag e).1.calls
  unfolding apply_tag
  apply_tag-AllGuarded b tag e a t h =
      let ensured : AllGuarded (ensure_job_exists c l b tag e).1.calls =
        ensure_job_exists-AllGuarded b tag e a t h in
      let synced : AllGuarded (update_status_synced c b tag e).1.calls =
        update_status_synced-AllGuarded c b tag e h in
      ground arith

  -- What the registry answered is in the calls.
  list_tags-HasTag :
      (url etag tag : GoString) (e : Env S)
      → (list_tags c url etag e).0.error ≡ none
      → get_last? (list_tags c url etag e).0.tags ≡ some tag
      → HasTag tag (list_tags c url etag e).1.calls
  unfolding list_tags
  list_tags-HasTag url etag tag e p q = record {
    listing = (c.registry.list_tags_with_etag url etag e.state).0;
    listed = Memᴰ.head refl;
    succeeded = p;
    latest = q;
  }

  list_tags-AllGuarded :
      (url etag : GoString) (e : Env S)
      → AllGuarded e.calls
      → AllGuarded (list_tags c url etag e).1.calls
  unfolding list_tags
  list_tags-AllGuarded url etag e h = h

  list_tags-HasAccount :
      (b : WerfBundle) (url etag : GoString) (e : Env S)
      → HasAccount b e.calls
      → HasAccount b (list_tags c url etag e).1.calls
  unfolding list_tags
  list_tags-HasAccount b url etag e a named = Memᴰ.tail (a named)

  pub poll-AllGuarded :
      (b : WerfBundle) (e : Env S)
      → HasAccount b e.calls
      → AllGuarded e.calls
      → AllGuarded (poll c l b e).1.calls
  unfolding poll
  poll-AllGuarded b e a h =
      let listed = list_tags c b.spec.registry.url b.status.last_etag e in
      let b' : WerfBundle = with_status b (polled_status b.status listed.0.new_etag) in
      let h' : AllGuarded listed.1.calls = list_tags-AllGuarded _ _ e h in
      let a' : HasAccount b' listed.1.calls = list_tags-HasAccount b _ _ e a in
      elim (Option-cases listed.0.error) [
        | inl p ↦ elim (Option-cases (get_last? listed.0.tags)) [
          | inl q ↦ rw (p, q, poll) (wait_for_tags-AllGuarded c l b' _ listed.1 h')
          | inr (tag, q) ↦
              rw (p, q, poll)
                (apply_tag-AllGuarded b' tag listed.1 a' (list_tags-HasTag _ _ tag e p q) h')
        ]
        | inr (x, p) ↦ rw (p, poll) (handle_registry_error-AllGuarded c l b x _ listed.1 h')
      ]
