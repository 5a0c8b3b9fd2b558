-- ===== src/Controller/Caching/Requests.antt =====
-- controllers/werfbundle_controller.go with internal/registry: the ETag, from the answer of the
-- registry over the statuses that a poll writes to the requests of the next poll.
use k8s_werf_operator_go.Base.{some, List, [], ◌∷◌, ◌≡◌, GoString}
use k8s_werf_operator_go.Registry.Etag.{HttpRequest, new_etag_round_tripper, conditional}
use k8s_werf_operator_go.Registry.Client.{Client}
use k8s_werf_operator_go.Controller.Cluster.{Cluster, Call, status_updated}

-- Each status that the calls write makes the transport that starts from it ask with this ETag.
abbrev pub AllAsk : GoString → List Call → Type 0
AllAsk etag [] = Unit
AllAsk etag (status_updated b ∷ calls) =
    ((req : HttpRequest)
      → (conditional (new_etag_round_tripper b.status.last_etag) req).if_none_match ≡ some etag)
    × AllAsk etag calls
AllAsk etag (_ ∷ calls) = AllAsk etag calls
