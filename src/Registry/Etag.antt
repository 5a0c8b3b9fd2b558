-- ===== src/Registry/Etag.antt =====
-- internal/registry/etag_transport.go: a wrapper of an HTTP transport that adds ETags.
pub mod Statuses
use k8s_werf_operator_go.Base.{
  ℕ, Bool, true, false, Option, none, some, List, [], ◌∷◌, ◌++◌, ◌||◌, ◌==◌, not, if◌then◌else◌,
  GoString, lit, is_empty, length, get_last?,
}
use k8s_werf_operator_go.Base.Decimal.{format_ℕ}
use k8s_werf_operator_go.Base.Result.{
  Result, ok, err, GoError, message, not_modified, network, auth, repository_not_found, Eff,
}

-- Of a request, its URL and the `If-None-Match` header.
pub record HttpRequest : Type 0 where
  pub url : GoString
  pub if_none_match : Option GoString

-- Of a response, its status, the `ETag` header (empty where it is missing) and the body.
pub record HttpResponse : Type 0 where
  pub status_code : ℕ
  pub etag : GoString
  pub body : GoString

pub record EtagRoundTripper : Type 0 where
  pub last_etag : GoString
  pub captured_etag : GoString

unfoldable pub new_etag_round_tripper : GoString → EtagRoundTripper
new_etag_round_tripper last_etag = record { last_etag = last_etag; captured_etag = [] }

-- `http.StatusText`, of the codes that are asked for.
unfoldable pub status_text : ℕ → GoString
status_text code =
    if code == 404
    then lit "Not Found"
    else if code == 401
    then lit "Unauthorized"
    else if code == 403
    then lit "Forbidden"
    else if code == 502
    then lit "Bad Gateway"
    else if code == 503
    then lit "Service Unavailable"
    else if code == 504
    then lit "Gateway Timeout"
    else if code == 500
    then lit "Internal Server Error"
    else []

unfoldable pub http_error : ℕ → GoError
unfolding status_text
http_error code = message (lit "HTTP " ++ format_ℕ code ++ lit ": " ++ status_text code)

-- The `switch` over the status code: the error of the response, if it is one.
unfoldable pub status_error : ℕ → Option GoError
status_error code =
    if code == 304
    then some not_modified
    else if code == 404
    then some (repository_not_found (http_error code))
    else if code == 401 || code == 403
    then some (auth (http_error code))
    else if code == 502 || (code == 503 || code == 504)
    then some (network (http_error code))
    else if code == 500
    then some (network (http_error code))
    else none

-- The request with the header that the wrapper adds.
unfoldable pub conditional : EtagRoundTripper → HttpRequest → HttpRequest
conditional t req =
    if not (is_empty t.last_etag) then record req { if_none_match = some t.last_etag } else req

-- The wrapper after a response.
unfoldable pub capture : EtagRoundTripper → HttpResponse → EtagRoundTripper
capture t resp = if not (is_empty resp.etag) then record t { captured_etag = resp.etag } else t

-- `RoundTrip` over the base transport, whose state is of type `N`.
unfoldable pub round_trip :
    {N : Type 0}
    → (HttpRequest → Eff N (Result HttpResponse))
    → HttpRequest
    → Eff (EtagRoundTripper × N) (Result HttpResponse)
unfolding conditional capture
round_trip base req (t, n) =
    let (r, n') = base (conditional t req) n in
    elim r [
      | err e ↦ (err e, (t, n'))
      | ok resp ↦ elim (status_error resp.status_code) [
        | some e ↦ (err e, (capture t resp, n'))
        | none ↦ (ok resp, (capture t resp, n'))
      ]
    ]

-- `CapturedETag`
abbrev pub captured_etag : EtagRoundTripper → GoString
captured_etag t = t.captured_etag

abbrev or_empty : Option GoString → GoString
or_empty none = []
or_empty (some s) = s

-- `GenerateFakeETag`
unfoldable pub generate_fake_etag : List GoString → GoString
generate_fake_etag [] = lit "\"empty\""
generate_fake_etag (tag ∷ tags) =
    lit "\"tags-"
    ++ format_ℕ (length (tag ∷ tags))
    ++ lit "-"
    ++ tag
    ++ lit "-"
    ++ or_empty (get_last? (tag ∷ tags))
    ++ lit "\""
