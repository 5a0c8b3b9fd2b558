-- ===== src/Rbac.antt =====
-- internal/rbac/validator.go
use k8s_werf_operator_go.Base.{Option, none, some, ◌++◌, GoString, lit, if◌then◌else◌}
use k8s_werf_operator_go.Base.Result.{Result, ok, err, GoError, message, wrapped, is_not_found, Eff}
use k8s_werf_operator_go.Api.{NamespacedName}

-- `ValidateServiceAccountExists`: `get` is the client's `Get` of a ServiceAccount, whose content
-- is not used.
unfoldable pub validate_service_account_exists :
    {S : Type 0}
    → (NamespacedName → Eff S (Result (Unit {0})))
    → GoString
    → GoString
    → Eff S (Option GoError)
validate_service_account_exists get name namespace s =
    let (r, s') = get (record { name = name; namespace = namespace }) s in
    elim r [
      | ok sa ↦ (none, s')
      | err e ↦ (
        some (
            if is_not_found e
            then message (
                lit "ServiceAccount '"
                ++ name
                ++ lit "' not found in namespace '"
                ++ namespace
                ++ lit "'")
            else wrapped
                (lit "failed to get ServiceAccount '"
                  ++ name
                  ++ lit "' in namespace '"
                  ++ namespace
                  ++ lit "'")
                e),
        s',
      )
    ]
