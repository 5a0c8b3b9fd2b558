-- ===== src/Examples/Runs.antt =====
-- controllers/werfbundle_controller.go: a run of the operator on the server in memory.
use k8s_werf_operator_go.Base.{List, [], ◌≡◌, ◌≢◌, lit, refl, sym, inl, inr, arith, subst}
use k8s_werf_operator_go.Base.Int.{pos}
use k8s_werf_operator_go.Base.Result.{ok, err, GoError, Result-cases}
use k8s_werf_operator_go.Api.{WerfBundle}
use k8s_werf_operator_go.Controller.Cluster.{
  Env, Call, update, update_status, get_job, create_job, get_service_account, create_config_map,
  update_config_map, list_tags,
}
use k8s_werf_operator_go.Controller.Reconcile.{reconcile}
use k8s_werf_operator_go.Controller.Statuses.{IsCoherent, AllCoherent}
use k8s_werf_operator_go.Controller.Invariants.{Keeps, ReadsKeep}
use k8s_werf_operator_go.Controller.Runs.{IsKnown, Stores, Run, Run-IsCoherent}
use k8s_werf_operator_go.Examples.Server.{
  World, server, library, server-KeepsStatus, request, new_bundle, start_with,
}

-- The stored bundle has the status of the new one or a written one.
abbrev IsStored : Env World → Type 0
IsStored e = (b : WerfBundle) → e.state.bundle ≡ ok b → IsKnown new_bundle.status e.calls b.status

-- Others leave the status of the bundle alone.
abbrev Outside : World → World → Type 0
Outside w w' =
    (b' : WerfBundle)
    → w'.bundle ≡ ok b'
    → (b : WerfBundle) × (w.bundle ≡ ok b) × (b'.status ≡ b.status)

IsStored-reads :
    (calls : List Call)
    → ReadsKeep server.values server.logs (λ s. IsStored (record { state = s; calls = calls }))
IsStored-reads calls = record {
  get_config_map_keeps = λ k s h. h;
  get_secret_keeps = λ k s h. h;
  list_pods_keeps = λ ns n s h. h;
  stream_logs_keeps = λ ns n k i s h. h;
}

ok_status : {b b' : WerfBundle} → ok b ≡ ok b' → b.status ≡ b'.status
ok_status q = cc

err-ne-ok : {x : GoError} {b : WerfBundle} → err x ≢ ok b
err-ne-ok q = cc

update-IsStored : (b : WerfBundle) (e : Env World) → IsStored e → IsStored (update server b e).1
unfolding update
update-IsStored b e h b' q = elim (Result-cases e.state.bundle) [
  | inl (stored, s) ↦
      let same : b'.status ≡ stored.status = ok_status (sym (rw s at q)) in
      subst (IsKnown new_bundle.status e.calls) (sym same) (h stored s)
  | inr (x, s) ↦ absurd (err-ne-ok (rw s at q))
]

update_status-IsStored :
    (b : WerfBundle) (e : Env World) → IsStored e → IsStored (update_status server b e).1
unfolding update_status
update_status-IsStored b e h b' q = inl (ok_status (sym q))

server-Keeps : Keeps server IsStored
unfolding get_job create_job get_service_account create_config_map update_config_map list_tags
server-Keeps = record {
  reads_keep = IsStored-reads;
  get_bundle_keeps = λ k e h. h;
  now_keeps = λ e h. h;
  rand_read_keeps = λ e h. h;
  rand_intn_keeps = λ e h. h;
  update_keeps = update-IsStored;
  update_status_keeps = update_status-IsStored;
  get_job_keeps = λ k e h. h;
  create_job_keeps = λ j e h. h;
  get_service_account_keeps = λ k e h. h;
  create_config_map_keeps = λ m e h. h;
  update_config_map_keeps = λ m e h. h;
  list_tags_keeps = λ u t e h. h;
}

server-Stores : Stores server request new_bundle.status Outside IsStored
server-Stores = record {
  keeps = server-Keeps;
  outside_keeps = λ e s change h b' q.
      let (b, stored, same) = change b' q in
      subst (IsKnown new_bundle.status e.calls) (sym same) (h b stored);
  reads_known = λ e b h q. h b q;
}

abbrev begin : World
begin = (start_with new_bundle).state

begin-IsStored : IsStored (record { state = begin; calls = [] })
begin-IsStored b q = sym (ok_status q)

new_bundle-IsCoherent : IsCoherent new_bundle.status
unfolding lit
new_bundle-IsCoherent = ground arith

abbrev run_from : Env World → Env World
run_from e = (reconcile server library request e).1

-- The Job has ended well.
abbrev changed : World → World
changed w = record w {
  job = ok (record { name = []; namespace = []; succeeded = pos 1; failed = pos 0 });
}

abbrev after_one : Env World
after_one = run_from (record { state = begin; calls = [] })

-- A reconciliation, the end of the Job, and a second reconciliation.
abbrev after_two : Env World
after_two = run_from (record { state = changed after_one.state; calls = after_one.calls })

two_runs : Run server library request Outside begin after_two
two_runs = Run.reconciled (Run.elsewhere (Run.reconciled Run.begins) (λ b' q. (b', q, refl)))

Run-IsCoherent_example :
    AllCoherent after_two.calls
    × ((b : WerfBundle)
        → (server.get_bundle request after_two.state).0 ≡ ok b
        → IsCoherent b.status)
Run-IsCoherent_example =
    Run-IsCoherent library server-KeepsStatus server-Stores new_bundle-IsCoherent begin-IsStored
      two_runs
