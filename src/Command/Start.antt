-- ===== src/Command/Start.antt =====
-- cmd/main.go: `main`, as a sequence of calls of the libraries each of which may end the process.
pub mod Steps
pub mod Order
use k8s_werf_operator_go.Base.{
  ℕ, Bool, true, false, Option, none, some, List, [], ◌∷◌, GoString, lit, if◌then◌else◌,
}
use k8s_werf_operator_go.Base.Result.{Result, ok, err, GoError, Eff}
use k8s_werf_operator_go.Controller.Setup.{
  ControllerSpec, WerfBundleReconciler, Builders, setup_with_manager,
}
use k8s_werf_operator_go.Command.{Flags, default_flags, ManagerOptions, manager_options}

-- The calls of `main`, in the order in which they are made, each with whether it succeeded; that of
-- `Complete` with whether the reconciler has a clientset.
pub data Call (Rest : Type 0) : Type 0 where
  config_read : Bool → Call Rest
  manager_made : ManagerOptions Rest → Bool → Call Rest
  clientset_made : Bool → Call Rest
  controller_completed : ControllerSpec → Bool → Bool → Call Rest
  healthz_check_added : GoString → Bool → Call Rest
  readyz_check_added : GoString → Bool → Call Rest
  started : Bool → Call Rest

-- The process goes on, or it has ended with a status.
pub data Ran (A : Type 0) : Type 0 where
  goes_on : A → Ran A
  exited : ℕ → Ran A

-- What `main` calls, over a state of type `N`. `flag.Parse` takes the defaults and the arguments, and
-- ends the process where it cannot read these or where they ask for help.
pub record Platform (Config Manager Clientset Rest N : Type 0) : Type 0 where
  pub parse : Flags → List GoString → Ran Flags
  pub get_config : Eff N (Option Config)
  pub new_manager : Config → ManagerOptions Rest → Eff N (Result Manager)
  pub new_for_config : Manager → Eff N (Result Clientset)
  pub complete :
      Manager → ControllerSpec → WerfBundleReconciler Manager Clientset → Eff N (Option GoError)
  pub add_healthz_check : Manager → GoString → Eff N (Option GoError)
  pub add_readyz_check : Manager → GoString → Eff N (Option GoError)
  pub start : Manager → Eff N (Option GoError)

-- The state with the calls made so far, the last one first.
pub record Process (Rest N : Type 0) : Type 0 where
  pub state : N
  pub calls : List (Call Rest)

abbrev pub has_value : {A : Type 0} → Option A → Bool
has_value none = false
has_value (some a) = true

abbrev pub is_success : {A : Type 0} → Result A → Bool
is_success (ok a) = true
is_success (err x) = false

abbrev pub is_nil : Option GoError → Bool
is_nil none = true
is_nil (some x) = false

-- `os.Exit(1)` where there is an error.
abbrev pub or_exit : {A : Type 0} → Result A → Ran A
or_exit (ok a) = goes_on a
or_exit (err x) = exited 1

abbrev pub unless_error : Option GoError → Ran (Unit {0})
unless_error none = goes_on tt
unless_error (some x) = exited 1

abbrev pub or_die : {A : Type 0} → Option A → Ran A
or_die none = exited 1
or_die (some a) = goes_on a

-- A step of the process, which may end it.
abbrev pub M : Type 0 → Type 0 → Type 0
M P A = P → Ran A × P

module _ {P A B : Type 0} where
  abbrev pub and_then : Ran A × P → (A → M P B) → Ran B × P
  and_then (goes_on a, p) k = k a p
  and_then (exited status, p) k = (exited status, p)

  infixl 5 ◌>>=◌ ◌>>◌
  abbrev pub ◌>>=◌ : M P A → (A → M P B) → M P B
  ◌>>=◌ m k p = and_then (m p) k

  abbrev pub ◌>>◌ : M P A → M P B → M P B
  m >> n = m >>= λ _. n

  abbrev pub exiting : (A → Ran B) → Eff P A → M P B
  exiting ran f p = let (a, p') = f p in (ran a, p')

-- A call, which is recorded with its success.
abbrev pub recorded : {Rest N A : Type 0} → Eff N A → (A → Call Rest) → Eff (Process Rest N) A
recorded f call p = let (a, n) = f p.state in (a, record { state = n; calls = call a ∷ p.calls })

module _ {Config Manager Clientset Rest N : Type 0}
    (platform : Platform Config Manager Clientset Rest N) where
  -- The builders that `SetupWithManager` uses on this platform.
  abbrev pub builders : Manager → Builders Manager Clientset (Process Rest N)
  builders mgr = record {
    new_for_config = recorded (platform.new_for_config mgr) (λ r. clientset_made (is_success r));
    complete = λ spec r.
        recorded (platform.complete mgr spec r)
          (λ x. controller_completed spec (has_value r.clientset) (is_nil x));
  }

  unfoldable pub parse_flags : List GoString → M (Process Rest N) Flags
  parse_flags args p = (platform.parse default_flags args, p)

  -- The reconciler that `main` registers: its client and its scheme are the manager's.
  unfoldable pub register : Manager → Clientset → M (Process Rest N) (Unit {0})
  register mgr clientset p =
      let reconciler : WerfBundleReconciler Manager Clientset = record {
        fields = mgr;
        clientset = some clientset;
      } in
      let ((x, r), p') = setup_with_manager (builders mgr) reconciler p in (unless_error x, p')

  unfoldable pub main : List GoString → M (Process Rest N) (Unit {0})
  main args = do
    flags ← parse_flags args
    config ← exiting or_die (recorded platform.get_config (λ c. config_read (has_value c)))
    mgr ← exiting or_exit (
        recorded (platform.new_manager config (manager_options flags))
          (λ m. manager_made (manager_options flags) (is_success m)))
    clientset ←
        exiting or_exit
          (recorded (platform.new_for_config mgr) (λ r. clientset_made (is_success r)))
    register mgr clientset
    exiting unless_error (
        recorded (platform.add_healthz_check mgr (lit "healthz"))
          (λ x. healthz_check_added (lit "healthz") (is_nil x)))
    exiting unless_error (
        recorded (platform.add_readyz_check mgr (lit "readyz"))
          (λ x. readyz_check_added (lit "readyz") (is_nil x)))
    exiting unless_error (recorded (platform.start mgr) (λ x. started (is_nil x)))
