-- ===== src/Registry/Etag/Statuses.antt =====
-- What the ETag transport does with each answer of the registry.
use k8s_werf_operator_go.Base.{ℕ, some, [], ◌≡◌, ◌≢◌, ◌⊎◌, ◌↔◌, arith, Option-cases, inl, inr}
use k8s_werf_operator_go.Base.Result.{
  Result, ok, err, GoError, not_modified, network, auth, repository_not_found, Eff,
}
use k8s_werf_operator_go.Registry.Etag.{
  HttpRequest, HttpResponse, EtagRoundTripper, capture, conditional, http_error, status_error,
  round_trip,
}

-- The answers that the transport turns into errors.
pub data Classified (code : ℕ) : GoError → Type 0 where
  cached : code ≡ 304 → Classified code not_modified
  missing : code ≡ 404 → Classified code (repository_not_found (http_error code))
  refused : (code ≡ 401) ⊎ (code ≡ 403) → Classified code (auth (http_error code))
  unavailable :
      (code ≡ 500) ⊎ ((code ≡ 502) ⊎ ((code ≡ 503) ⊎ (code ≡ 504)))
      → Classified code (network (http_error code))

status_error-Classified : (code : ℕ) {e : GoError} → status_error code ≡ some e → Classified code e
unfolding status_error
status_error-Classified code h =
    grind (arith, Classified.cached, Classified.missing, Classified.refused, Classified.unavailable)

Classified-status_error : (code : ℕ) {e : GoError} → Classified code e → status_error code ≡ some e
unfolding status_error
Classified-status_error code (Classified.cached q) = ground arith
Classified-status_error code (Classified.missing q) = ground arith
Classified-status_error code (Classified.refused q) = ground arith
Classified-status_error code (Classified.unavailable q) = ground arith

module _ {N : Type 0} (base : HttpRequest → Eff N (Result HttpResponse)) (req : HttpRequest)
    (t : EtagRoundTripper) (n : N) where
  -- An answer of the registry becomes an error exactly when its status is 304, 404, 401, 403, 500,
  -- 502, 503 or 504, and the error is that of its class; any other answer is passed on as it is.
  pub round_trip_errors :
      (resp : HttpResponse) (e : GoError)
      → (base (conditional t req) n).0 ≡ ok resp
      → (((round_trip base req (t, n)).0 ≡ err e) ↔ Classified resp.status_code e)
        × (((round_trip base req (t, n)).0 ≡ ok resp)
            ↔ ¬ ((x : GoError) × Classified resp.status_code x))
  unfolding round_trip
  round_trip_errors resp e h = (
    (
      λ q. status_error-Classified resp.status_code (ground arith),
      λ c.
          let q : status_error resp.status_code ≡ some e = Classified-status_error _ c in
          ground arith,
    ),
    (
      λ q c.
          let q' : status_error resp.status_code ≡ some c.0 = Classified-status_error _ c.1 in
          absurd (ground arith),
      λ none_fits. elim (Option-cases (status_error resp.status_code)) [
        | inl q ↦ ground arith
        | inr (x, q) ↦ absurd (none_fits (x, status_error-Classified resp.status_code q))
      ],
    ),
  )

  pub round_trip-captured :
      (resp : HttpResponse)
      → (base (conditional t req) n).0 ≡ ok resp
      → resp.etag ≢ []
      → (round_trip base req (t, n)).1.0.captured_etag ≡ resp.etag
  unfolding round_trip capture
  round_trip-captured resp h k = ground arith
