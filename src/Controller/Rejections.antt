-- ===== src/Controller/Rejections.antt =====
-- What `Reconcile` does with a bundle that is being deleted, that may not be deployed, or whose
-- ServiceAccount is missing.
use mathlib.Core.List.{Memᴰ}
use k8s_werf_operator_go.Base.{
  ◌⊎◌, ◌↔◌, subst, sym, true, ℕ, Option, none, some, List, [], ◌∷◌, ◌≡◌, ◌≢◌, refl, arith, GoString,
  false, inl, inr, Bool-cases, ap, lit, is_empty, Option-cases,
}
use k8s_werf_operator_go.Base.Result.{Result, ok, err, GoError, error_text, is_not_found}
use k8s_werf_operator_go.Api.{
  WerfBundle, NamespacedName, get_target_namespace, validate_cross_namespace_deployment,
}
use k8s_werf_operator_go.Api.CrossNamespace.{validate_cross_namespace_deployment_iff}
use k8s_werf_operator_go.Rbac.{validate_service_account_exists}
use k8s_werf_operator_go.Controller.Cluster.{
  Cluster, Library, silently, Call, status_updated, updated, service_account_read, Env, Outcome,
  done, failed, no_requeue, is_ok, update_status, update, get_service_account,
}
use k8s_werf_operator_go.Controller.Status.{failed_status, update_status_failed, with_status}
use k8s_werf_operator_go.Base.Int.{pos}
use k8s_werf_operator_go.Controller.Monitor.{finish}
use k8s_werf_operator_go.Controller.Isolation.{identity}
use k8s_werf_operator_go.Controller.Guards.{account_of}
use k8s_werf_operator_go.Controller.Reconcile.{
  validate_service_account, reconcile_validated, reconcile_active, reconcile_deleted,
  reconcile_present, reconcile, finalizer_name, with_finalizers,
}

-- What the end of a rejected bundle is: the calls before, and one status, `Failed` with a message.
pub record IsRejected (b : WerfBundle) (before after : List Call) : Type 0 where
  pub text : GoString
  pub explained : text ≢ []
  pub written : after ≡ status_updated (with_status b (failed_status b.status text)) ∷ before

validate_cross_namespace_deployment-explained :
    (b : WerfBundle) {x : GoError}
    → validate_cross_namespace_deployment b ≡ some x
    → error_text x ≢ []
unfolding validate_cross_namespace_deployment error_text lit
validate_cross_namespace_deployment-explained b {x} h = ground arith

-- What controllerutil documents of its functions on finalizers.
pub record HandlesFinalizers (l : Library) : Type 0 where
  pub contains_iff :
      (fs : List GoString) (f : GoString) → (l.contains_finalizer fs f ≡ true) ↔ Memᴰ f fs
  pub removes :
      (fs : List GoString) (f g : GoString)
      → Memᴰ g (l.remove_finalizer fs f) ↔ (Memᴰ g fs × (g ≢ f))

-- The outcome tells an error of the update, and nothing else.
abbrev pub Reports : Result WerfBundle → Outcome → Type 0
Reports (ok b) outcome = outcome ≡ done (pos 0)
Reports (err x) outcome = outcome ≡ failed x

-- The one call takes the finalizer of the operator away from a bundle that has it, and nothing else.
pub record IsReleased (b : WerfBundle) (answer : WerfBundle → Result WerfBundle) (outcome : Outcome)
    (before after : List Call) : Type 0 where
  pub held : Memᴰ (lit "werf.io/finalizer") b.meta.finalizers
  pub released : WerfBundle
  pub only_call : after ≡ updated released ∷ before
  pub same_bundle : identity released ≡ identity b
  pub same_status : released.status ≡ b.status
  pub others_kept :
      (g : GoString)
      → Memᴰ g released.meta.finalizers ↔ (Memᴰ g b.meta.finalizers × (g ≢ lit "werf.io/finalizer"))
  pub reported : Reports (answer released) outcome

-- A bundle without the finalizer is left alone.
pub record IsLeft (b : WerfBundle) (outcome : Outcome) (before after : List Call) : Type 0 where
  pub not_held : ¬ Memᴰ (lit "werf.io/finalizer") b.meta.finalizers
  pub no_call : after ≡ before
  pub ends : outcome ≡ done (pos 0)

finish-Reports : (r : Result WerfBundle) → Reports r (finish r)
finish-Reports (ok b) = refl
finish-Reports (err x) = refl

module _ {S : Type 0} (c : Cluster S) (l : Library) where
  reconcile_deleted-IsReleased :
      (b : WerfBundle) (e : Env S)
      → HandlesFinalizers l
      → let (outcome, e') = reconcile_deleted c l b e in
        IsLeft b outcome e.calls e'.calls
        ⊎ IsReleased b (λ b'. (c.update b' e.state).0) outcome e.calls e'.calls
  unfolding reconcile_deleted update finalizer_name
  reconcile_deleted-IsReleased b e library =
      let fs = b.meta.finalizers in
      elim (Bool-cases (l.contains_finalizer fs finalizer_name)) [
        | inl has ↦
            let released = with_finalizers b (l.remove_finalizer fs finalizer_name) in
            rw (has, reconcile_deleted)
              (inr (record {
                held = (library.contains_iff fs finalizer_name).0 has;
                released = released;
                only_call = refl;
                same_bundle = refl;
                same_status = refl;
                others_kept = library.removes fs finalizer_name;
                reported = finish-Reports (c.update released e.state).0;
              }))
        | inr lacks ↦
            rw (lacks, reconcile_deleted)
              (inl (record {
                not_held = λ h.
                    let has = (library.contains_iff fs finalizer_name).1 h in
                    absurd (ground (arith, has, lacks));
                no_call = refl;
                ends = refl;
              }))
      ]

  -- With controllerutil's functions on finalizers as documented: a bundle that is being deleted and
  -- has the finalizer `werf.io/finalizer` gets one call, an update of the same bundle, with the same
  -- spec and status, that has all its other finalizers and not this one; the reconciliation then ends
  -- with the error of that update, if there is one, and otherwise without a further run. One that
  -- does not have it gets no call, and no further run.
  pub reconcile-IsReleased :
      (request : NamespacedName) (e : Env S) {b : WerfBundle} {time : ℕ}
      → HandlesFinalizers l
      → (c.get_bundle request e.state).0 ≡ ok b
      → b.meta.deletion_timestamp ≡ some time
      → let (outcome, e') = reconcile c l request e in
        IsLeft b outcome e.calls e'.calls
        ⊎ IsReleased b
            (λ b'. (c.update b' (c.get_bundle request e.state).1).0)
            outcome
            e.calls
            e'.calls
  unfolding reconcile
  reconcile-IsReleased request e {b} {time} library p q =
      let e₁ = (silently (c.get_bundle request) e).1 in
      let r : reconcile c l request e ≡ reconcile_deleted c l b e₁ =
        rw (p, reconcile)
          (ap
            (λ (d : Option ℕ). elim d [
              | some t ↦ reconcile_deleted c l b e₁
              | none ↦ reconcile_present c l b e₁
            ])
            q) in
      subst
        (λ (run : Outcome × Env S).
          IsLeft b run.0 e.calls run.1.calls
          ⊎ IsReleased b (λ b'. (c.update b' e₁.state).0) run.0 e.calls run.1.calls)
        (sym r) (reconcile_deleted-IsReleased b e₁ library)

  -- A bundle for another namespace that names no ServiceAccount is rejected: the one call writes it
  -- `Failed` with a message.
  pub reconcile_active-rejects :
      (b : WerfBundle) (e : Env S)
      → get_target_namespace b.spec.converge b.meta.namespace ≢ b.meta.namespace
      → b.spec.converge.service_account_name ≡ []
      → IsRejected b e.calls (reconcile_active c l b e).1.calls
  unfolding reconcile_active update_status_failed update_status
  reconcile_active-rejects b e foreign unnamed =
      elim (Option-cases (validate_cross_namespace_deployment b)) [
        | inl p ↦ absurd (elim ((validate_cross_namespace_deployment_iff b).0 p) [
          | inl same ↦ foreign same
          | inr named ↦ named unnamed
        ])
        | inr (x, p) ↦
            rw (p, reconcile_active)
              (record {
                text = error_text x;
                explained = validate_cross_namespace_deployment-explained b p;
                written = refl;
              })
      ]

  validate_service_account_exists-err :
      (name namespace : GoString) (e : Env S) {x : GoError}
      → (c.get_service_account (account_of name namespace) e.state).0 ≡ err x
      → (y : GoError) × ((validate_service_account_exists
            (get_service_account c)
            name
            namespace
            e).0
          ≡ some y)
        × (error_text y ≢ [])
        × ((validate_service_account_exists (get_service_account c) name namespace e).1.calls
            ≡ service_account_read (account_of name namespace) false ∷ e.calls)
  unfolding validate_service_account_exists get_service_account error_text lit
  validate_service_account_exists-err name namespace e {x} q =
      let read : (get_service_account c (account_of name namespace) e).1.calls
          ≡ service_account_read (account_of name namespace) false ∷ e.calls =
        ap (λ r. service_account_read (account_of name namespace) (is_ok r) ∷ e.calls) q in
      elim (Bool-cases (is_not_found x)) [
        | inl gone ↦
            rw (q, gone, validate_service_account_exists, get_service_account)
              (_, refl, (λ h. ground arith), read)
        | inr other ↦
            rw (q, other, validate_service_account_exists, get_service_account)
              (_, refl, (λ h. ground arith), read)
      ]

  validate_service_account-refuses :
      (b : WerfBundle) (e : Env S) {x : GoError}
      → (c.get_service_account
          (account_of b.spec.converge.service_account_name
            (get_target_namespace b.spec.converge b.meta.namespace))
          e.state).0
        ≡ err x
      → ((validate_service_account c l b e).0 ≢ none)
        × IsRejected b
            (service_account_read
                (account_of b.spec.converge.service_account_name
                  (get_target_namespace b.spec.converge b.meta.namespace))
                false
              ∷ e.calls)
            (validate_service_account c l b e).1.calls
  unfolding validate_service_account update_status_failed update_status
  validate_service_account-refuses b e {x} q =
      let (y, p, explained, read) =
        validate_service_account_exists-err b.spec.converge.service_account_name
          (get_target_namespace b.spec.converge b.meta.namespace) e q in
      (
        (λ h. grind arith),
        record { text = error_text y; explained = explained; written = grind arith },
      )

  -- A bundle whose ServiceAccount the API does not find, or fails to read, is rejected after that
  -- one read: it is written `Failed` with a message, no tag is listed, and whatever the status
  -- update answers, the reconciliation ends without an error and without a further run.
  pub reconcile_validated-refuses :
      (b : WerfBundle) (e : Env S) {x : GoError}
      → b.spec.converge.service_account_name ≢ []
      → (c.get_service_account
          (account_of b.spec.converge.service_account_name
            (get_target_namespace b.spec.converge b.meta.namespace))
          e.state).0
        ≡ err x
      → ((reconcile_validated c l b e).0 ≡ no_requeue)
        × IsRejected b
            (service_account_read
                (account_of b.spec.converge.service_account_name
                  (get_target_namespace b.spec.converge b.meta.namespace))
                false
              ∷ e.calls)
            (reconcile_validated c l b e).1.calls
  unfolding reconcile_validated
  reconcile_validated-refuses b e {x} named q =
      let some_name : is_empty b.spec.converge.service_account_name ≡ false = ground arith in
      let (p, r) = validate_service_account-refuses b e q in
      elim (Option-cases (validate_service_account c l b e).0) [
        | inl passes ↦ absurd (p passes)
        | inr (y, fails) ↦ rw (some_name, fails, reconcile_validated) (refl, r)
      ]
