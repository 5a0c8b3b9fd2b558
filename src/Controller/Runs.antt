-- ===== src/Controller/Runs.antt =====
-- controllers/werfbundle_controller.go: a bundle from its creation on, through any number of
-- reconciliations and of changes by others.
use k8s_werf_operator_go.Base.{List, [], ◌∷◌, ◌≡◌, ◌⊎◌, inl, inr, subst, sym}
use k8s_werf_operator_go.Base.Result.{ok}
use k8s_werf_operator_go.Api.{WerfBundle, WerfBundleStatus, NamespacedName}
use k8s_werf_operator_go.Controller.Cluster.{
  Cluster, Library, Call, updated, status_updated, job_created, config_map_created,
  config_map_updated, service_account_read, tags_listed, job_read, Env,
}
use k8s_werf_operator_go.Controller.Reconcile.{reconcile}
use k8s_werf_operator_go.Controller.Statuses.{IsCoherent, AllCoherent, KeepsStatus}
use k8s_werf_operator_go.Controller.Statuses.Chain.{reconcile-coherent}
use k8s_werf_operator_go.Controller.Invariants.{Keeps}
use k8s_werf_operator_go.Controller.Invariants.Chain.{reconcile-keeps}

-- A status that a bundle with the first status can have after the calls: that one, or one that a
-- call has written.
abbrev pub IsKnown : WerfBundleStatus → List Call → WerfBundleStatus → Type 0
IsKnown first [] st = st ≡ first
IsKnown first (status_updated b ∷ calls) st = (st ≡ b.status) ⊎ IsKnown first calls st
IsKnown first (_ ∷ calls) st = IsKnown first calls st

-- The API server reads out, however late, only a status of the bundle that it was given: the first
-- one, or one that the operator has written. `I` is what the server maintains for this, and
-- `Outside` relates two states between which others have made changes.
pub record Stores {S : Type 0} (c : Cluster S) (request : NamespacedName) (first : WerfBundleStatus)
    (Outside : S → S → Type 0) (I : Env S → Type 0) : Type 0 where
  pub keeps : Keeps c I
  pub outside_keeps :
      (e : Env S) (s : S) → Outside e.state s → I e → I (record { state = s; calls = e.calls })
  pub reads_known :
      (e : Env S) (b : WerfBundle)
      → I e
      → (c.get_bundle request e.state).0 ≡ ok b
      → IsKnown first e.calls b.status

module _ {S : Type 0} (c : Cluster S) (l : Library) (request : NamespacedName)
    (Outside : S → S → Type 0) (begin : S) where
  -- What can be reached: the operator has made no calls at the beginning, and then reconciles the
  -- bundle or waits while others make changes.
  pub data Run : Env S → Type 0 where
    begins : Run (record { state = begin; calls = [] })
    reconciled : {e : Env S} → Run e → Run (reconcile c l request e).1
    elsewhere :
        {e : Env S} {s : S}
        → Run e
        → Outside e.state s
        → Run (record { state = s; calls = e.calls })

IsKnown-IsCoherent :
    (first : WerfBundleStatus) (calls : List Call) (st : WerfBundleStatus)
    → IsCoherent first
    → AllCoherent calls
    → IsKnown first calls st
    → IsCoherent st
IsKnown-IsCoherent first [] st k h q = subst IsCoherent (sym q) k
IsKnown-IsCoherent first (status_updated b ∷ calls) st k h (inl q) = subst IsCoherent (sym q) h.0
IsKnown-IsCoherent first (status_updated b ∷ calls) st k h (inr q) =
    IsKnown-IsCoherent first calls st k h.1 q
IsKnown-IsCoherent first (updated b ∷ calls) st k h q = IsKnown-IsCoherent first calls st k h q
IsKnown-IsCoherent first (job_created j ∷ calls) st k h q = IsKnown-IsCoherent first calls st k h q
IsKnown-IsCoherent first (config_map_created m ∷ calls) st k h q =
    IsKnown-IsCoherent first calls st k h q
IsKnown-IsCoherent first (config_map_updated m ∷ calls) st k h q =
    IsKnown-IsCoherent first calls st k h q
IsKnown-IsCoherent first (service_account_read n a ∷ calls) st k h q =
    IsKnown-IsCoherent first calls st k h q
IsKnown-IsCoherent first (tags_listed r ∷ calls) st k h q = IsKnown-IsCoherent first calls st k h q
IsKnown-IsCoherent first (job_read n ∷ calls) st k h q = IsKnown-IsCoherent first calls st k h q

module _ {S : Type 0} {c : Cluster S} (l : Library) {request : NamespacedName}
    {first : WerfBundleStatus} {Outside : S → S → Type 0} {I : Env S → Type 0} {begin : S}
    (server : KeepsStatus c) (stores : Stores c request first Outside I) where
  Run-keeps :
      {e : Env S} → I (record { state = begin; calls = [] }) → Run c l request Outside begin e → I e
  Run-keeps start begins = start
  Run-keeps start (reconciled {e} run) =
      reconcile-keeps l stores.keeps request e (Run-keeps start run)
  Run-keeps start (elsewhere {e} {s} run change) =
      stores.outside_keeps e s change (Run-keeps start run)

  Run-AllCoherent :
      {e : Env S}
      → IsCoherent first
      → I (record { state = begin; calls = [] })
      → Run c l request Outside begin e
      → AllCoherent e.calls
  Run-AllCoherent k start begins = tt
  Run-AllCoherent k start (reconciled {e} run) =
      let h = Run-AllCoherent k start run in
      reconcile-coherent c l server request e
        (λ b q.
          IsKnown-IsCoherent first e.calls b.status k h
            (stores.reads_known e b (Run-keeps start run) q))
        h
  Run-AllCoherent k start (elsewhere run change) = Run-AllCoherent k start run

  -- On a server that stores and keeps statuses, for a bundle whose first status is coherent (that of
  -- a new bundle is): after any number of complete reconciliations, whatever their calls answered,
  -- with any changes by others between them, all statuses that the operator has written are coherent,
  -- and so is the status that the bundle is read with.
  pub Run-IsCoherent :
      {e : Env S}
      → IsCoherent first
      → I (record { state = begin; calls = [] })
      → Run c l request Outside begin e
      → AllCoherent e.calls
        × ((b : WerfBundle) → (c.get_bundle request e.state).0 ≡ ok b → IsCoherent b.status)
  Run-IsCoherent {e} k start run =
      let h = Run-AllCoherent k start run in
      (
        h,
        λ b q.
            IsKnown-IsCoherent first e.calls b.status k h
              (stores.reads_known e b (Run-keeps start run) q),
      )
