-- ===== src/Command/Start/Steps.antt =====
-- cmd/main.go: the steps of `main`, as a list.
use k8s_werf_operator_go.Base.{
  ℕ, Bool, true, false, Option, none, some, List, [], ◌∷◌, lit, ◌≡◌, ◌⊎◌, inl, inr, refl,
}
use k8s_werf_operator_go.Base.Result.{Result, ok, err, GoError, Eff}
use k8s_werf_operator_go.Controller.Setup.{controller_spec}
use k8s_werf_operator_go.Command.{Flags, manager_options}
use k8s_werf_operator_go.Command.Start.{
  Call, config_read, manager_made, clientset_made, controller_completed, healthz_check_added,
  readyz_check_added, started, Process, Ran, goes_on, exited, has_value, is_success, is_nil,
  or_exit, unless_error, or_die, M, and_then, recorded, exiting,
}

-- What is seen of a run: how it ends, and its calls.
abbrev pub seen : {Rest N A : Type 0} → Ran A × Process Rest N → Ran A × List (Call Rest)
seen (r, p) = (r, p.calls)

-- Steps that are taken in order, on top of the calls made before: at the first that fails the process
-- ends with status 1, and if none fails it goes on.
abbrev pub TakesSteps :
    {Rest : Type 0}
    → List (Bool → Call Rest)
    → List (Call Rest)
    → Ran (Unit {0}) × List (Call Rest)
    → Type 0
TakesSteps [] calls r = r ≡ (goes_on tt, calls)
TakesSteps (step ∷ steps) calls r =
    (r ≡ (exited 1, step false ∷ calls)) ⊎ TakesSteps steps (step true ∷ calls) r

-- The seven steps of the command, from the last one on.
module _ {Rest : Type 0} where
  abbrev pub steps_from_start : List (Bool → Call Rest)
  steps_from_start = started ∷ []

  abbrev pub steps_from_readyz : List (Bool → Call Rest)
  steps_from_readyz = readyz_check_added (lit "readyz") ∷ steps_from_start

  abbrev pub steps_from_healthz : List (Bool → Call Rest)
  steps_from_healthz = healthz_check_added (lit "healthz") ∷ steps_from_readyz

  abbrev pub steps_from_register : List (Bool → Call Rest)
  steps_from_register = controller_completed controller_spec true ∷ steps_from_healthz

  abbrev pub steps_from_clientset : List (Bool → Call Rest)
  steps_from_clientset = clientset_made ∷ steps_from_register

  abbrev pub steps_from_manager : Flags → List (Bool → Call Rest)
  steps_from_manager f = manager_made (manager_options f) ∷ steps_from_clientset

  abbrev pub steps : Flags → List (Bool → Call Rest)
  steps f = config_read ∷ steps_from_manager f

-- What a call answers with goes on exactly if it is a success.
abbrev pub Agrees : {A B : Type 0} → (A → Ran B) → (A → Bool) → A → Type 0
Agrees {B = B} ran success a =
    ((b : B) × (ran a ≡ goes_on b) × (success a ≡ true))
    ⊎ ((ran a ≡ exited 1) × (success a ≡ false))

module _ {Rest N A B : Type 0} (f : Eff N A) (step : Bool → Call Rest) (success : A → Bool)
    (ran : A → Ran B) where
  pub take_step :
      (p : Process Rest N) (k : B → M (Process Rest N) (Unit {0})) (steps : List (Bool → Call Rest))
      → ((a : A) → Agrees ran success a)
      → ((b : B) (p' : Process Rest N)
          → p'.calls ≡ step true ∷ p.calls
          → TakesSteps steps (step true ∷ p.calls) (seen (k b p')))
      → TakesSteps
          (step ∷ steps)
          p.calls
          (seen (and_then (exiting ran (recorded f (λ a. step (success a))) p) k))
  take_step p k steps agrees rest = elim (agrees (f p.state).0) [
    | inl (b, r, t) ↦ inr (rw (r, t, and_then) (rest b _ refl))
    | inr (r, t) ↦ inl (rw (r, t, and_then) refl)
  ]

pub result-Agrees : {A : Type 0} (r : Result A) → Agrees or_exit is_success r
result-Agrees (ok a) = inl (a, refl, refl)
result-Agrees (err x) = inr (refl, refl)

pub option-Agrees : {A : Type 0} (o : Option A) → Agrees or_die has_value o
option-Agrees none = inr (refl, refl)
option-Agrees (some a) = inl (a, refl, refl)

pub error-Agrees : (x : Option GoError) → Agrees unless_error is_nil x
error-Agrees none = inl (tt, refl, refl)
error-Agrees (some x) = inr (refl, refl)

-- The whole run, from what `flag.Parse` does: where it ends the process, nothing is called.
abbrev pub RunsAs : {Rest : Type 0} → Ran Flags → Ran (Unit {0}) × List (Call Rest) → Type 0
RunsAs (exited status) run = run ≡ (exited status, [])
RunsAs (goes_on f) run = TakesSteps (steps f) [] run

pub Ran-cases :
    {A : Type 0} (r : Ran A) → ((a : A) × (r ≡ goes_on a)) ⊎ ((status : ℕ) × (r ≡ exited status))
Ran-cases (goes_on a) = inl (a, refl)
Ran-cases (exited status) = inr (status, refl)
