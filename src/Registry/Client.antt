-- ===== src/Registry/Client.antt =====
-- internal/registry/client.go: the tags of a repository. The registry library is a parameter.
pub mod Tags
use k8s_werf_operator_go.Base.{
  ℕ, Bool, true, false, Option, none, some, List, [], ◌∷◌, ◌++◌, if◌then◌else◌, GoString, lit,
  get_last?,
}
use k8s_werf_operator_go.Base.Sort.{sort_strings}
use k8s_werf_operator_go.Base.Result.{
  Result, ok, err, GoError, wrapped, not_modified, network, auth, repository_not_found, Eff,
  message, api, err_not_found,
}
use k8s_werf_operator_go.Registry.Etag.{
  HttpRequest, HttpResponse, EtagRoundTripper, new_etag_round_tripper, round_trip, captured_etag,
}

-- The three results of `ListTagsWithETag`.
pub record ListResult : Type 0 where
  pub tags : List GoString
  pub new_etag : GoString
  pub error : Option GoError

-- What the controller calls of the `Client` interface: the URL and the last ETag are given, and
-- no authenticator.
pub record Client (S : Type 0) : Type 0 where
  pub list_tags_with_etag : GoString → GoString → Eff S ListResult

-- What the operator calls of go-containerregistry, over a network in a state of type `N`: the
-- parsing of a repository's name, and the listing of its tags, by the default transport or by a
-- given one.
pub record Remote (Repository Auth N : Type 0) : Type 0 where
  pub no_auth : Auth
  pub new_repository : GoString → Result Repository
  pub default_transport : HttpRequest → Eff N (Result HttpResponse)
  pub list : Repository → Auth → Eff N (Result (List GoString))
  pub list_with_transport :
      Repository
      → Auth
      → (HttpRequest → Eff (EtagRoundTripper × N) (Result HttpResponse))
      → Eff (EtagRoundTripper × N) (Result (List GoString))

-- `err.(*NotModifiedError)`: the error itself, not one that it wraps.
abbrev pub is_exactly_not_modified : GoError → Bool
is_exactly_not_modified not_modified = true
is_exactly_not_modified _ = false

module _ {Repository Auth N : Type 0} (remote : Remote Repository Auth N) where
  open remote use {no_auth, new_repository, default_transport, list, list_with_transport}

  unfoldable pub list_tags : GoString → Auth → Eff N (Result (List GoString))
  list_tags repo_url authenticator n = elim (new_repository repo_url) [
    | err e ↦ (err (wrapped (lit "invalid repository URL") e), n)
    | ok ref ↦
        let (r, n') = list ref authenticator n in
        elim r [
          | err e ↦ (err (wrapped (lit "failed to list tags") e), n')
          | ok tags ↦ (ok (sort_strings tags), n')
        ]
  ]

  abbrev last_or_empty : List GoString → GoString
  last_or_empty tags = elim (get_last? tags) [ none ↦ [] | some t ↦ t ]

  unfoldable pub get_latest_tag : GoString → Auth → Eff N (Result GoString)
  unfolding list_tags
  get_latest_tag repo_url authenticator n =
      let (r, n') = list_tags repo_url authenticator n in
      elim r [ err e ↦ (err e, n') | ok tags ↦ (ok (last_or_empty tags), n') ]

  abbrev failed : GoString → GoError → ListResult
  failed etag e = record { tags = []; new_etag = etag; error = some e }

  unfoldable pub list_tags_with_etag : GoString → Auth → GoString → Eff N ListResult
  list_tags_with_etag repo_url authenticator last_etag n = elim (new_repository repo_url) [
    | err e ↦ (failed [] (wrapped (lit "invalid repository URL") e), n)
    | ok ref ↦
        let (r, (etag_transport, n')) =
          list_with_transport ref authenticator (round_trip default_transport)
            (new_etag_round_tripper last_etag, n) in
        elim r [
          | err e ↦
              if is_exactly_not_modified e
              then (failed (captured_etag etag_transport) not_modified, n')
              else (failed [] (wrapped (lit "failed to list tags") e), n')
          | ok tags ↦ (
            record {
              tags = sort_strings tags;
              new_etag = captured_etag etag_transport;
              error = none;
            },
            n',
          )
        ]
  ]

  -- `NewOCIClient`: the client that main.go gives to the controller.
  unfoldable pub new_oci_client : Client N
  unfolding list_tags_with_etag
  new_oci_client = record {
    list_tags_with_etag = λ repo_url last_etag. list_tags_with_etag repo_url no_auth last_etag;
  }
