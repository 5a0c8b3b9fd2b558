-- ===== src/Examples/Converge.antt =====
-- internal/converge: the theorems on Jobs, their names and their logs, at small inputs.
use Prim.Native.Nat.{min}
use k8s_werf_operator_go.Base.{
  true, ℕ, some, none, List, [], ◌∷◌, ◌++◌, ◌+◌, ◌^◌, ◌≤◌, ◌<◌, ◌≡◌, ◌≢◌, ◌↔◌, refl, arith,
  GoString, lit, length,
}
use k8s_werf_operator_go.Base.Int.{pos}
use k8s_werf_operator_go.Base.Result.{Result, ok, err, message}
use k8s_werf_operator_go.Api.{ConvergeConfig}
use k8s_werf_operator_go.Converge.JobName.{
  fnv32a, job_name, tag_hash, format_hex32, hex_digits, hex_digit, slice_to, encode_to_string,
  assemble_name,
}
use k8s_werf_operator_go.Converge.JobName.Names.{job_name_panics, job_name_distinct}
use k8s_werf_operator_go.Converge.JobName.Labels.{is_label, job_name-is_label}
use k8s_werf_operator_go.Converge.Limits.{
  expected_seconds, get_log_retention_seconds, get_log_retention_seconds_lem,
}
use k8s_werf_operator_go.Converge.Logs.{
  LogClient, Pod, max_log_size, truncation_notice, truncate_logs, join, capture_job_logs,
}
use k8s_werf_operator_go.Converge.Logs.Truncation.{truncate_logs_lem}
use k8s_werf_operator_go.Converge.Logs.Capture.{job_logs, capture_job_logs-ok_iff}
use k8s_werf_operator_go.Examples.Server.{new_bundle}

abbrev app : GoString
app = b'a' ∷ []

-- v1.17.0: its hash is 0xe3e9d06, seven digits long.
abbrev v1_17_0 : GoString
unfolding lit
v1_17_0 = lit "v1.17.0"

name_of_v1_17_0 : job_name app v1_17_0 (some (1 ∷ 2 ∷ 3 ∷ 4 ∷ [])) ≡ none
unfolding job_name tag_hash format_hex32 hex_digits slice_to fnv32a lit
name_of_v1_17_0 = refl

job_name_panics_example :
    (job_name app v1_17_0 (some (1 ∷ 2 ∷ 3 ∷ 4 ∷ [])) ≡ none) ↔ (fnv32a v1_17_0 < 2 ^ 28)
job_name_panics_example = job_name_panics app v1_17_0 (some (1 ∷ 2 ∷ 3 ∷ 4 ∷ []))

abbrev v2 : GoString
v2 = b'v' ∷ b'2' ∷ []

-- a-974a4b21-01020304
abbrev name_1234 : GoString
unfolding lit
name_1234 = lit "a-974a4b21-01020304"

abbrev name_1235 : GoString
unfolding lit
name_1235 = lit "a-974a4b21-01020305"

job_name-is_label_example :
    (is_label name_1234 ≡ true)
    × (length name_1234 ≡ min (length app) 235 + 18)
    × ((length name_1234 ≤ 63) ↔ (length app ≤ 45))
unfolding job_name tag_hash format_hex32 hex_digits hex_digit slice_to fnv32a encode_to_string
    assemble_name lit
job_name-is_label_example =
    job_name-is_label app v2 (1 ∷ 2 ∷ 3 ∷ 4 ∷ []) refl refl (omega arith) refl

job_name_distinct_example : name_1234 ≢ name_1235
unfolding job_name tag_hash format_hex32 hex_digits hex_digit slice_to fnv32a encode_to_string
    assemble_name lit
job_name_distinct_example =
    job_name_distinct app v2 (1 ∷ 2 ∷ 3 ∷ 4 ∷ []) (1 ∷ 2 ∷ 3 ∷ 5 ∷ []) refl (omega arith)
      (omega arith) refl refl (λ e. ground arith)

abbrev retained : ℕ → ConvergeConfig
retained d = record (new_bundle.spec.converge) { log_retention_days = some (pos d) }

get_log_retention_seconds_lem_example :
    get_log_retention_seconds (retained 30000) ≡ expected_seconds (some (pos 30000))
get_log_retention_seconds_lem_example = get_log_retention_seconds_lem (retained 30000) (omega arith)

truncate_logs_lem_example :
    (length v2 ≤ max_log_size → truncate_logs v2 ≡ v2)
    × (max_log_size < length v2
        → (cut kept : GoString) × (v2 ≡ cut ++ kept)
          × (length kept ≡ max_log_size)
          × (truncate_logs v2 ≡ truncation_notice ++ kept)
          × (length (truncate_logs v2) ≡ max_log_size + 46))
truncate_logs_lem_example = truncate_logs_lem v2

-- A client with two pods, of which one has a log that can be read.
abbrev pods : List Pod
pods =
    record { name = app; containers = app ∷ [] } ∷ record { name = v2; containers = v2 ∷ [] } ∷ []

abbrev log_of : GoString → Result (Result GoString)
log_of (b ∷ c ∷ p) = ok (ok (b'l' ∷ []))
log_of p = err (message [])

abbrev client : LogClient (Unit {0})
client = record {
  list_pods = λ ns job s. (ok pods, s);
  stream_logs = λ ns pod container n s. (log_of pod, s);
}

capture_job_logs-ok_iff_example :
    let logs = (job_logs client app pods tt).0 in
    ((capture_job_logs client app app tt).0 ≡ ok (b'l' ∷ []))
    ↔ ((logs ≢ []) × (b'l' ∷ [] ≡ truncate_logs (join logs (lit "\n---\n"))))
capture_job_logs-ok_iff_example = capture_job_logs-ok_iff client app app tt (b'l' ∷ []) refl
