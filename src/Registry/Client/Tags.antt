-- ===== src/Registry/Client/Tags.antt =====
-- The tags that the registry client returns are sorted, and the controller takes the greatest.
use k8s_werf_operator_go.Base.{
  true, some, List, [], ◌≡◌, ◌⊎◌, inl, inr, Option-cases, refl, arith, GoString, get_last?, All,
  none, lit, Bool-cases,
}
use mathlib.Core.List.{Memᴰ}
use k8s_werf_operator_go.Base.Sort.{sort_strings, sort_strings_last, sort_strings_no_last, IsBelow}
use k8s_werf_operator_go.Base.Result.{
  Result, ok, err, Result-cases, GoError, wrapped, not_modified, is_not_modified,
}
use k8s_werf_operator_go.Registry.Etag.{new_etag_round_tripper, round_trip}
use k8s_werf_operator_go.Registry.Client.{
  Remote, get_latest_tag, is_exactly_not_modified, list_tags_with_etag, ListResult,
}

is_exactly_not_modified-eq : (e : GoError) → is_exactly_not_modified e ≡ true → e ≡ not_modified
is_exactly_not_modified-eq not_modified h = refl
is_exactly_not_modified-eq (wrapped s e) h = cc
is_exactly_not_modified-eq _ h = cc

-- A result without an error, of which the last tag is the greatest of these.
abbrev pub IsListing : List GoString → ListResult → Type 0
IsListing tags r =
    (r.error ≡ none)
    × ((latest : GoString)
        → get_last? r.tags ≡ some latest
        → Memᴰ latest tags × All (IsBelow latest) tags)
    × (get_last? r.tags ≡ none → tags ≡ [])

-- A result with no tags and an error, which is the 304 error exactly if this one is.
abbrev pub IsFailure : GoError → ListResult → Type 0
IsFailure e r =
    (r.tags ≡ [])
    × ((e' : GoError) × (r.error ≡ some e') × (is_not_modified e' ≡ is_not_modified e))

-- The result for what the parser of the URL and the listing of a repository answer.
abbrev pub AnswersAs :
    {Repository : Type 0}
    → Result Repository
    → (Repository → Result (List GoString))
    → ListResult
    → Type 0
AnswersAs {Repository} parsed listed r =
    ((e : GoError) × (parsed ≡ err e) × IsFailure e r)
    ⊎ ((ref : Repository) × (parsed ≡ ok ref)
        × (((e : GoError) × (listed ref ≡ err e) × IsFailure e r)
            ⊎ ((tags : List GoString) × (listed ref ≡ ok tags) × IsListing tags r)))

module _ {Repository Auth N : Type 0} (remote : Remote Repository Auth N) (url : GoString)
    (authenticator : Auth) (n : N) where
  -- Where the URL is a repository and the registry library answers with tags, the last tag of the
  -- poll is one of them, and none of them is greater in bytewise order.
  list_tags_with_etag_last :
      (last_etag : GoString) (ref : Repository) (tags : List GoString) (latest : GoString)
      → remote.new_repository url ≡ ok ref
      → (remote.list_with_transport ref authenticator
          (round_trip remote.default_transport)
          (new_etag_round_tripper last_etag, n)).0
        ≡ ok tags
      → get_last? (list_tags_with_etag remote url authenticator last_etag n).0.tags ≡ some latest
      → Memᴰ latest tags × All (IsBelow latest) tags
  unfolding list_tags_with_etag
  list_tags_with_etag_last last_etag ref tags latest h k l = sort_strings_last tags (ground arith)

  -- Where the URL is a repository and the registry library fails, an error that the caller gets is
  -- the 304 error, as `errors.As` tells it, exactly if the library's was, which may be wrapped.
  list_tags_with_etag_not_modified :
      (last_etag : GoString) (ref : Repository) (e : GoError)
      → remote.new_repository url ≡ ok ref
      → (remote.list_with_transport ref authenticator
          (round_trip remote.default_transport)
          (new_etag_round_tripper last_etag, n)).0
        ≡ err e
      → (e' : GoError)
      → (list_tags_with_etag remote url authenticator last_etag n).0.error ≡ some e'
      → is_not_modified e' ≡ is_not_modified e
  unfolding list_tags_with_etag is_not_modified
  list_tags_with_etag_not_modified last_etag ref e h k e' l =
      ground (arith, is_exactly_not_modified-eq e)

  list_tags_with_etag-IsListing :
      (last_etag : GoString) (ref : Repository) (tags : List GoString)
      → remote.new_repository url ≡ ok ref
      → (remote.list_with_transport ref authenticator
          (round_trip remote.default_transport)
          (new_etag_round_tripper last_etag, n)).0
        ≡ ok tags
      → IsListing tags (list_tags_with_etag remote url authenticator last_etag n).0
  unfolding list_tags_with_etag
  list_tags_with_etag-IsListing last_etag ref tags h k = (
    (ground arith),
    (λ latest. list_tags_with_etag_last last_etag ref tags latest h k),
    (λ l. sort_strings_no_last tags (ground arith)),
  )

  list_tags_with_etag-IsFailure :
      (last_etag : GoString) (ref : Repository) (e : GoError)
      → remote.new_repository url ≡ ok ref
      → (remote.list_with_transport ref authenticator
          (round_trip remote.default_transport)
          (new_etag_round_tripper last_etag, n)).0
        ≡ err e
      → IsFailure e (list_tags_with_etag remote url authenticator last_etag n).0
  unfolding list_tags_with_etag is_not_modified
  list_tags_with_etag-IsFailure last_etag ref e h k =
      elim (Bool-cases (is_exactly_not_modified e)) [
        | inl q ↦ (
          (ground arith),
          (not_modified, (ground arith), (ground (arith, is_exactly_not_modified-eq e))),
        )
        | inr q ↦ ((ground arith), (wrapped (lit "failed to list tags") e, (ground arith), refl))
      ]

  -- Whatever the registry answers, `ListTagsWithETag` answers as the registry library does: where the
  -- library lists tags, without an error, the last tag is one of these and none of them is greater
  -- in bytewise order, and there is no last tag only if there are none; where the URL is refused or
  -- the library fails, with no tags and an error that is the 304 error, as `errors.As` tells it,
  -- exactly if the library's was.
  pub list_tags_with_etag-AnswersAs :
      (last_etag : GoString)
      → AnswersAs
          (remote.new_repository url)
          (λ ref.
            (remote.list_with_transport ref authenticator
              (round_trip remote.default_transport)
              (new_etag_round_tripper last_etag, n)).0)
          (list_tags_with_etag remote url authenticator last_etag n).0
  unfolding list_tags_with_etag is_not_modified
  list_tags_with_etag-AnswersAs last_etag = elim (Result-cases (remote.new_repository url)) [
    | inr (e, q) ↦
        inl
          (e, q, ((ground arith), (wrapped (lit "invalid repository URL") e, (ground arith), refl)))
    | inl (ref, q) ↦
        elim (Result-cases
          (remote.list_with_transport ref authenticator (round_trip remote.default_transport)
            (new_etag_round_tripper last_etag, n)).0) [
              | inl (tags, k) ↦
                  inr (ref, q, inr (tags, k, list_tags_with_etag-IsListing last_etag ref tags q k))
              | inr (e, k) ↦
                  inr (ref, q, inl (e, k, list_tags_with_etag-IsFailure last_etag ref e q k))
            ]
  ]

  -- Where the URL is a repository and the registry library answers with tags, `GetLatestTag` gives
  -- the greatest of them, and the empty string where there is none.
  get_latest_tag_greatest :
      (ref : Repository) (tags : List GoString) (latest : GoString)
      → remote.new_repository url ≡ ok ref
      → (remote.list ref authenticator n).0 ≡ ok tags
      → (get_latest_tag remote url authenticator n).0 ≡ ok latest
      → ((tags ≡ []) × (latest ≡ [])) ⊎ (Memᴰ latest tags × All (IsBelow latest) tags)
  unfolding get_latest_tag
  get_latest_tag_greatest ref tags latest h k l =
      elim (Option-cases (get_last? (sort_strings tags))) [
        | inl e ↦ inl (sort_strings_no_last tags e, ground arith)
        | inr (t, e) ↦ inr (sort_strings_last tags (ground arith))
      ]
