-- ===== src/Examples/Caching.antt =====
-- controllers/werfbundle_controller.go with internal/registry: a poll of a registry with ETags.
use k8s_werf_operator_go.Base.{none, List, [], ◌∷◌, GoString}
use k8s_werf_operator_go.Base.Result.{Result, ok, err}
use k8s_werf_operator_go.Registry.Etag.{HttpRequest, HttpResponse}
use k8s_werf_operator_go.Registry.Client.{Remote, new_oci_client}
use k8s_werf_operator_go.Controller.Cluster.{Cluster}
use k8s_werf_operator_go.Examples.Server.{World, server, new_bundle, start_with}

abbrev etag : GoString
etag = b'e' ∷ []

abbrev answer : HttpResponse
answer = record { status_code = 200; etag = etag; body = [] }

abbrev get : HttpRequest
get = record { url = b'u' ∷ []; if_none_match = none }

abbrev versions : List GoString
versions = (b'v' ∷ b'1' ∷ []) ∷ []

abbrev tags_of : Result HttpResponse → Result (List GoString)
tags_of (ok r) = ok versions
tags_of (err e) = err e

-- A registry that always answers with the same tags and the same ETag.
abbrev remote : Remote GoString (Unit {0}) World
remote = record {
  no_auth = tt;
  new_repository = λ s. ok s;
  default_transport = λ req w. (ok answer, w);
  list = λ repository auth w. (ok versions, w);
  list_with_transport = λ repository auth trip s. let (r, s') = trip get s in (tags_of r, s');
}

abbrev tagged_server : Cluster World
tagged_server = record server { registry = new_oci_client remote }

abbrev start : World
start = (start_with new_bundle).state
