-- ===== src/Base/Result.antt =====
-- Go errors, and the pair `(value, error)` of which one is set.

use mathlib.Core.Path.{◌≡◌, refl}
use mathlib.Core.Logic.{◌⊎◌, inl, inr}
use mathlib.Core.Bool.{Bool, true, false}
use mathlib.Core.List.{◌++◌}
use k8s_werf_operator_go.Base.Text.{GoString, lit}

-- The reason of a Kubernetes `StatusError`; the source asks for two of them.
pub data StatusReason : Type 0 where
  not_found already_exists other : StatusReason

-- The errors that the source makes or tells apart.
pub data GoError : Type 0 where
  -- `errors.New`, or `fmt.Errorf` with nothing wrapped.
  message : GoString → GoError
  -- `fmt.Errorf("<prefix>: %w", err)`.
  wrapped : GoString → GoError → GoError
  -- An answer of the Kubernetes API.
  api : StatusReason → GoString → GoError
  -- internal/values/fetch.go: `ErrNotFound`.
  err_not_found : GoError
  -- internal/registry/client.go: `NotModifiedError`, `NetworkError`, `AuthError`, `NotFoundError`.
  not_modified : GoError
  network : GoError → GoError
  auth : GoError → GoError
  repository_not_found : GoError → GoError

-- `err.Error()`.
unfoldable pub error_text : GoError → GoString
error_text (message s) = s
error_text (wrapped s e) = s ++ lit ": " ++ error_text e
error_text (api r s) = s
error_text err_not_found = lit "resource not found"
error_text not_modified = lit "registry returned 304 Not Modified (cached response is valid)"
error_text (network e) = lit "network error: " ++ error_text e
error_text (auth e) = lit "authentication error: " ++ error_text e
error_text (repository_not_found e) = lit "repository not found: " ++ error_text e

abbrev pub is_reason_not_found : StatusReason → Bool
is_reason_not_found not_found = true
is_reason_not_found _ = false

abbrev pub is_reason_already_exists : StatusReason → Bool
is_reason_already_exists already_exists = true
is_reason_already_exists _ = false

-- `apierrors.IsNotFound`: the chain of wrapped errors holds an API error with that reason.
unfoldable pub is_not_found : GoError → Bool
is_not_found (api r s) = is_reason_not_found r
is_not_found (wrapped s e) = is_not_found e
is_not_found (network e) = is_not_found e
is_not_found (auth e) = is_not_found e
is_not_found (repository_not_found e) = is_not_found e
is_not_found (message s) = false
is_not_found err_not_found = false
is_not_found not_modified = false

-- `apierrors.IsAlreadyExists`.
unfoldable pub is_already_exists : GoError → Bool
is_already_exists (api r s) = is_reason_already_exists r
is_already_exists (wrapped s e) = is_already_exists e
is_already_exists (network e) = is_already_exists e
is_already_exists (auth e) = is_already_exists e
is_already_exists (repository_not_found e) = is_already_exists e
is_already_exists (message s) = false
is_already_exists err_not_found = false
is_already_exists not_modified = false

-- `errors.Is(err, ErrNotFound)`.
unfoldable pub is_err_not_found : GoError → Bool
is_err_not_found err_not_found = true
is_err_not_found (wrapped s e) = is_err_not_found e
is_err_not_found (network e) = is_err_not_found e
is_err_not_found (auth e) = is_err_not_found e
is_err_not_found (repository_not_found e) = is_err_not_found e
is_err_not_found (message s) = false
is_err_not_found (api r s) = false
is_err_not_found not_modified = false

-- `errors.As(err, &notModified)`.
unfoldable pub is_not_modified : GoError → Bool
is_not_modified not_modified = true
is_not_modified (wrapped s e) = is_not_modified e
is_not_modified (network e) = is_not_modified e
is_not_modified (auth e) = is_not_modified e
is_not_modified (repository_not_found e) = is_not_modified e
is_not_modified (message s) = false
is_not_modified (api r s) = false
is_not_modified err_not_found = false

pub data Result {ℓ} (A : Type ℓ) : Type ℓ where
  ok : A → Result A
  err : GoError → Result A

-- A call that may change the state of what it is made on.
abbrev pub Eff {ℓ κ} : Type κ → Type ℓ → Type (ℓ ⊔ κ)
Eff S A = S → A × S

pub Result-cases {ℓ} :
    {A : Type ℓ} (r : Result A) → ((a : A) × (r ≡ ok a)) ⊎ ((e : GoError) × (r ≡ err e))
Result-cases (ok a) = inl (a, refl)
Result-cases (err e) = inr (e, refl)
