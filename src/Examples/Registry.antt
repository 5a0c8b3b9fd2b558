-- ===== src/Examples/Registry.antt =====
-- internal/registry: the theorems on backoff, jitter, tags and ETags, at a registry of one answer.
use k8s_werf_operator_go.Base.{
  ℕ, some, none, List, [], ◌∷◌, ◌+◌, ◌-◌, ◌/◌, ◌<◌, ◌≤◌, ◌≡◌, ◌↔◌, ◌⊎◌, refl, arith, GoString, lit,
  str_le, get_last?,
}
use k8s_werf_operator_go.Base.Int.{ℤ, pos, ◌≤ℤ◌}
use k8s_werf_operator_go.Base.Sort.{sort_strings}
use k8s_werf_operator_go.Base.Result.{Result, ok, err, GoError, not_modified, wrapped, Eff}
use k8s_werf_operator_go.Registry.Backoff.{calculate_backoff, add_jitter}
use k8s_werf_operator_go.Registry.Backoff.Bounds.{doubled, calculate_backoff_lem, add_jitter_lem}
use k8s_werf_operator_go.Registry.Etag.{
  HttpRequest, HttpResponse, EtagRoundTripper, new_etag_round_tripper, round_trip, status_error,
}
use k8s_werf_operator_go.Registry.Etag.Statuses.{Classified, round_trip_errors}
use k8s_werf_operator_go.Registry.Client.{Remote, list_tags_with_etag, get_latest_tag}
use k8s_werf_operator_go.Registry.Client.Tags.{AnswersAs, list_tags_with_etag-AnswersAs}

calculate_backoff_lem_example :
    (calculate_backoff (pos 3) ≡ pos (doubled 3)) × (calculate_backoff (pos (64 + 2)) ≡ pos 0)
calculate_backoff_lem_example = calculate_backoff_lem 3 2 (omega arith)

-- The greatest number that `rand.Intn` may draw.
abbrev greatest : ℕ → ℕ
greatest n = n - 1

greatest-lt : (n : ℕ) → 0 < n → greatest n < n
greatest-lt n h = omega arith

add_jitter_lem_example :
    ((0 < 900000000000) × (900000000000 < 10) × (add_jitter greatest (pos 900000000000) ≡ none))
    ⊎ (((◌≡◌ {A = ℕ} 900000000000 0) ⊎ (10 ≤ 900000000000))
        × (j : ℤ) × (add_jitter greatest (pos 900000000000) ≡ some j)
        × (pos (900000000000 - 900000000000 / 10) ≤ℤ j)
        × (j ≤ℤ pos (900000000000 + 900000000000 / 10 - 1)))
add_jitter_lem_example = add_jitter_lem greatest 900000000000 greatest-lt (omega arith)

abbrev v1 : GoString
v1 = b'v' ∷ b'1' ∷ []

abbrev v2 : GoString
v2 = b'v' ∷ b'2' ∷ []

abbrev etag : GoString
etag = b'e' ∷ []

abbrev get : HttpRequest
get = record { url = b'u' ∷ []; if_none_match = none }

-- What the registry answers is the network's state; the library wraps the transport's errors.
abbrev tags_of : Result HttpResponse → Result (List GoString)
tags_of (ok r) = ok (v2 ∷ v1 ∷ [])
tags_of (err e) = err (wrapped etag e)

abbrev transport : HttpRequest → Eff HttpResponse (Result HttpResponse)
transport req r = (ok r, r)

abbrev remote : Remote GoString (Unit {0}) HttpResponse
remote = record {
  no_auth = tt;
  new_repository = λ s. ok s;
  default_transport = transport;
  list = λ repository auth r. (tags_of (transport get r).0, r);
  list_with_transport = λ repository auth trip s. let (r, s') = trip get s in (tags_of r, s');
}

abbrev found : HttpResponse
found = record { status_code = 200; etag = etag; body = [] }

abbrev unchanged : HttpResponse
unchanged = record { status_code = 304; etag = etag; body = [] }

abbrev missing : HttpResponse
missing = record { status_code = 404; etag = []; body = [] }

-- What the library answers where the registry answers with this response.
abbrev listed : HttpResponse → GoString → Result (List GoString)
listed response ref =
    (remote.list_with_transport ref tt (round_trip remote.default_transport)
      (new_etag_round_tripper etag, response)).0

list_tags_with_etag-AnswersAs_example :
    AnswersAs (ok v1) (listed found) (list_tags_with_etag remote v1 tt etag found).0
list_tags_with_etag-AnswersAs_example = list_tags_with_etag-AnswersAs remote v1 tt found etag

takes_the_greatest : get_last? (list_tags_with_etag remote v1 tt etag found).0.tags ≡ some v2
unfolding list_tags_with_etag round_trip sort_strings status_error str_le
takes_the_greatest = refl

-- The library wraps the error, and so does the client.
stays_not_modified :
    (list_tags_with_etag remote v1 tt etag unchanged).0.error
    ≡ some (wrapped (lit "failed to list tags") (wrapped etag not_modified))
unfolding list_tags_with_etag round_trip status_error lit
stays_not_modified = refl

latest_tag : (get_latest_tag remote v1 tt found).0 ≡ ok v2
unfolding get_latest_tag sort_strings str_le
latest_tag = refl

abbrev fresh : EtagRoundTripper
fresh = record { last_etag = []; captured_etag = [] }

round_trip_errors_example :
    (((round_trip transport get (fresh, missing)).0 ≡ err not_modified)
      ↔ Classified 404 not_modified)
    × (((round_trip transport get (fresh, missing)).0 ≡ ok missing)
        ↔ ¬ ((x : GoError) × Classified 404 x))
round_trip_errors_example = round_trip_errors transport get fresh missing missing not_modified refl
