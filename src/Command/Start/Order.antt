-- ===== src/Command/Start/Order.antt =====
-- cmd/main.go: the order of the calls of `main`, and where the process ends.
use k8s_werf_operator_go.Base.{
  Bool, true, false, Option, none, some, List, [], ◌∷◌, GoString, lit, ◌≡◌, inl, inr, refl, subst,
  ap,
}
use k8s_werf_operator_go.Base.Result.{GoError, Eff}
use k8s_werf_operator_go.Controller.Setup.{controller_spec, setup_with_manager}
use k8s_werf_operator_go.Command.{Flags, default_flags, manager_options}
use k8s_werf_operator_go.Command.Start.{
  Call, config_read, manager_made, clientset_made, controller_completed, healthz_check_added,
  readyz_check_added, started, Platform, Process, Ran, goes_on, exited, has_value, is_success,
  is_nil, or_exit, unless_error, or_die, M, and_then, recorded, exiting, parse_flags, register,
  main,
}
use k8s_werf_operator_go.Command.Start.Steps.{
  seen, TakesSteps, steps_from_start, steps_from_readyz, steps_from_healthz, steps_from_register,
  steps_from_clientset, steps_from_manager, steps, Agrees, take_step, result-Agrees, option-Agrees,
  error-Agrees, RunsAs, Ran-cases,
}

module _ {Config Manager Clientset Rest N : Type 0}
    (platform : Platform Config Manager Clientset Rest N) where
  open platform use {
    get_config, new_manager, new_for_config, complete, add_healthz_check, add_readyz_check, start,
  }

  -- The steps from one on, after a call that succeeded.
  abbrev Continues :
      {B : Type 0} → List (Bool → Call Rest) → (B → M (Process Rest N) (Unit {0})) → Type 0
  Continues {B} steps k =
      (b : B) (p : Process Rest N) (calls : List (Call Rest))
      → p.calls ≡ calls
      → TakesSteps steps calls (seen (k b p))

  -- One more step.
  continue :
      {A B C : Type 0} (f : C → Eff N A) (step : Bool → Call Rest) (success : A → Bool)
      (ran : A → Ran B) (k : B → M (Process Rest N) (Unit {0})) (steps : List (Bool → Call Rest))
      → ((a : A) → Agrees ran success a)
      → Continues steps k
      → Continues
          (step ∷ steps)
          (λ c p. and_then (exiting ran (recorded (f c) (λ a. step (success a))) p) k)
  continue f step success ran k steps agrees rest c p calls e =
      subst
        (λ l.
          TakesSteps (step ∷ steps) l
            (seen (and_then (exiting ran (recorded (f c) (λ a. step (success a))) p) k)))
        e (take_step (f c) step success ran p k steps agrees (λ b p' q. rest b p' _ q))

  module _ (mgr : Manager) where
    abbrev from_start : Unit {0} → M (Process Rest N) (Unit {0})
    from_start _ = exiting unless_error (recorded (start mgr) (λ x. started (is_nil x)))

    abbrev from_readyz : Unit {0} → M (Process Rest N) (Unit {0})
    from_readyz _ p =
        and_then
          (exiting unless_error
            (recorded (add_readyz_check mgr (lit "readyz"))
              (λ x. readyz_check_added (lit "readyz") (is_nil x)))
            p)
          from_start

    abbrev from_healthz : Unit {0} → M (Process Rest N) (Unit {0})
    from_healthz _ p =
        and_then
          (exiting unless_error
            (recorded (add_healthz_check mgr (lit "healthz"))
              (λ x. healthz_check_added (lit "healthz") (is_nil x)))
            p)
          from_readyz

    start-Continues : Continues steps_from_start from_start
    start-Continues _ p calls e = ended (start mgr p.state).0 e
      where
        ended :
            (x : Option GoError) {l : List (Call Rest)}
            → l ≡ calls
            → TakesSteps steps_from_start calls (unless_error x, started (is_nil x) ∷ l)
        ended none q = inr (ap (λ l. (goes_on tt, started true ∷ l)) q)
        ended (some x) q = inl (ap (λ l. (exited 1, started false ∷ l)) q)

    readyz-Continues : Continues steps_from_readyz from_readyz
    readyz-Continues =
        continue (λ _. add_readyz_check mgr (lit "readyz")) (readyz_check_added (lit "readyz"))
          is_nil unless_error from_start steps_from_start error-Agrees start-Continues

    healthz-Continues : Continues steps_from_healthz from_healthz
    healthz-Continues =
        continue (λ _. add_healthz_check mgr (lit "healthz")) (healthz_check_added (lit "healthz"))
          is_nil unless_error from_readyz steps_from_readyz error-Agrees readyz-Continues

    -- `register`, with a clientset, is one call of `Complete`.
    abbrev from_register : Clientset → M (Process Rest N) (Unit {0})
    from_register clientset p = and_then (register platform mgr clientset p) from_healthz

    register-Continues : Continues steps_from_register from_register
    unfolding register setup_with_manager
    register-Continues =
        continue
          (λ clientset.
            complete mgr controller_spec (record { fields = mgr; clientset = some clientset }))
          (controller_completed controller_spec true) is_nil unless_error from_healthz
          steps_from_healthz error-Agrees healthz-Continues

  abbrev from_clientset : Manager → M (Process Rest N) (Unit {0})
  from_clientset mgr p =
      and_then
        (exiting or_exit (recorded (new_for_config mgr) (λ r. clientset_made (is_success r))) p)
        (from_register mgr)

  clientset-Continues : Continues steps_from_clientset from_clientset
  clientset-Continues mgr =
      continue (λ (m : Manager). new_for_config m) clientset_made is_success or_exit
        (from_register mgr) steps_from_register result-Agrees (register-Continues mgr) mgr

  module _ (f : Flags) where
    abbrev from_manager : Config → M (Process Rest N) (Unit {0})
    from_manager config p =
        and_then
          (exiting or_exit
            (recorded (new_manager config (manager_options f))
              (λ m. manager_made (manager_options f) (is_success m)))
            p)
          from_clientset

    manager-Continues : Continues (steps_from_manager f) from_manager
    manager-Continues =
        continue (λ config. new_manager config (manager_options f))
          (manager_made (manager_options f)) is_success or_exit from_clientset steps_from_clientset
          result-Agrees clientset-Continues

    abbrev from_config : Unit {0} → M (Process Rest N) (Unit {0})
    from_config _ p =
        and_then (exiting or_die (recorded get_config (λ c. config_read (has_value c))) p)
          from_manager

    config-Continues : Continues (steps f) from_config
    config-Continues =
        continue (λ (_ : Unit {0}). get_config) config_read has_value or_die from_manager
          (steps_from_manager f) option-Agrees manager-Continues

  -- Where `flag.Parse` returns, `main` makes its seven calls in order: the manager is created with
  -- the options that the flags make, the controller is completed with a clientset, and the manager
  -- is started last. At the first call that fails the process ends with status 1, with no further
  -- call; if none fails, `main` returns. Where `flag.Parse` ends the process, nothing is called.
  pub main-RunsAs :
      (args : List GoString) (n : N)
      → RunsAs
          (platform.parse default_flags args)
          (seen (main platform args (record { state = n; calls = [] })))
  unfolding main parse_flags
  main-RunsAs args n = elim (Ran-cases (platform.parse default_flags args)) [
    | inl (f, q) ↦
        rw (q, main, parse_flags) (config-Continues f tt (record { state = n; calls = [] }) [] refl)
    | inr (status, q) ↦ rw (q, main, parse_flags) refl
  ]
