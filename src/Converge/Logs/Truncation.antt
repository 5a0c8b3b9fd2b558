-- ===== src/Converge/Logs/Truncation.antt =====
-- How much of the logs is kept.
use k8s_werf_operator_go.Base.{
  ◌++◌, ◌+◌, ◌-◌, ◌≤◌, ◌<◌, ◌≡◌, refl, arith, GoString, lit, length, drop, take, length-append,
  length-drop, take-append-drop, sym,
}
use k8s_werf_operator_go.Converge.Logs.{max_log_size, truncation_notice, truncate_logs}

notice-length : length truncation_notice ≡ 46
unfolding truncation_notice lit
notice-length = refl

-- Logs of up to 1 MiB are kept whole. Of longer logs exactly the last 1 MiB is kept, behind a
-- notice, so that the result is longer than 1 MiB by the 46 bytes of the notice.
pub truncate_logs_lem :
    (logs : GoString)
    → (length logs ≤ max_log_size → truncate_logs logs ≡ logs)
      × (max_log_size < length logs
          → (cut kept : GoString) × (logs ≡ cut ++ kept)
            × (length kept ≡ max_log_size)
            × (truncate_logs logs ≡ truncation_notice ++ kept)
            × (length (truncate_logs logs) ≡ max_log_size + 46))
unfolding truncate_logs
truncate_logs_lem logs = (
  λ h. ground arith,
  λ h.
      let n = length logs - max_log_size in
      let e : truncate_logs logs ≡ truncation_notice ++ drop n logs = ground arith in
      (
        take n logs,
        drop n logs,
        sym (take-append-drop n logs),
        omega (arith, length-drop n logs),
        e,
        rw e (
            omega (
              arith,
              length-append truncation_notice (drop n logs),
              length-drop n logs,
              notice-length,
            )),
      ),
)
