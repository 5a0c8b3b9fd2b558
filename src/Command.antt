-- ===== src/Command.antt =====
-- cmd/main.go: the flags of the operator's command, and what they make of the options of its servers
-- and its manager.
pub mod Init
pub mod Start
pub mod Servers
use k8s_werf_operator_go.Base.{
  ℕ, Bool, true, false, Option, none, some, List, [], ◌∷◌, ◌++◌, GoString, lit, is_empty, not,
  if◌then◌else◌,
}

-- The variables that the flags set.
pub record Flags : Type 0 where
  pub metrics_addr : GoString
  pub metrics_cert_path : GoString
  pub metrics_cert_name : GoString
  pub metrics_cert_key : GoString
  pub webhook_cert_path : GoString
  pub webhook_cert_name : GoString
  pub webhook_cert_key : GoString
  pub enable_leader_election : Bool
  pub probe_addr : GoString
  pub secure_metrics : Bool
  pub enable_http2 : Bool

-- Their values where the command line does not name them.
unfoldable pub default_flags : Flags
default_flags = record {
  metrics_addr = lit "0";
  metrics_cert_path = [];
  metrics_cert_name = lit "tls.crt";
  metrics_cert_key = lit "tls.key";
  webhook_cert_path = [];
  webhook_cert_name = lit "tls.crt";
  webhook_cert_key = lit "tls.key";
  enable_leader_election = false;
  probe_addr = lit ":8081";
  secure_metrics = true;
  enable_http2 = false;
}

-- Of `tls.Config`, the field that the command sets; the others are one, of a type of the caller's.
pub record TlsConfig (Rest : Type 0) : Type 0 where
  pub next_protos : List GoString
  pub rest : Rest

-- Of `webhook.Options` and `metricsserver.Options`, the fields that the command sets.
pub record Certificates : Type 0 where
  pub cert_dir : GoString
  pub cert_name : GoString
  pub key_name : GoString

-- `filters.WithAuthenticationAndAuthorization`, the one filter that is used.
pub data FilterProvider : Type 0 where
  with_authentication_and_authorization : FilterProvider

pub record WebhookOptions (Rest : Type 0) : Type 0 where
  pub tls_opts : List (TlsConfig Rest → TlsConfig Rest)
  pub certificates : Certificates

pub record MetricsOptions (Rest : Type 0) : Type 0 where
  pub bind_address : GoString
  pub secure_serving : Bool
  pub tls_opts : List (TlsConfig Rest → TlsConfig Rest)
  pub filter_provider : Option FilterProvider
  pub certificates : Certificates

-- Of `ctrl.Options`, the fields that the command sets; `webhook_server` is what `webhook.NewServer`
-- is given.
pub record ManagerOptions (Rest : Type 0) : Type 0 where
  pub metrics : MetricsOptions Rest
  pub webhook_server : WebhookOptions Rest
  pub health_probe_bind_address : GoString
  pub leader_election : Bool
  pub leader_election_id : GoString

abbrev pub no_certificates : Certificates
no_certificates = record { cert_dir = []; cert_name = []; key_name = [] }

-- The certificates, where a directory is given: `if len(path) > 0`.
unfoldable pub certificates_in : GoString → GoString → GoString → Certificates
certificates_in path name key =
    if not (is_empty path)
    then record { cert_dir = path; cert_name = name; key_name = key }
    else no_certificates

module _ {Rest : Type 0} where
  unfoldable pub disable_http2 : TlsConfig Rest → TlsConfig Rest
  disable_http2 c = record c { next_protos = lit "http/1.1" ∷ [] }

  unfoldable pub tls_options : Flags → List (TlsConfig Rest → TlsConfig Rest)
  tls_options f = if not f.enable_http2 then disable_http2 ∷ [] else []

  unfoldable pub webhook_options : Flags → WebhookOptions Rest
  webhook_options f = record {
    tls_opts = tls_options f;
    certificates = certificates_in f.webhook_cert_path f.webhook_cert_name f.webhook_cert_key;
  }

  unfoldable pub metrics_options : Flags → MetricsOptions Rest
  metrics_options f = record {
    bind_address = f.metrics_addr;
    secure_serving = f.secure_metrics;
    tls_opts = tls_options f;
    filter_provider = if f.secure_metrics then some with_authentication_and_authorization else none;
    certificates = certificates_in f.metrics_cert_path f.metrics_cert_name f.metrics_cert_key;
  }

  unfoldable pub manager_options : Flags → ManagerOptions Rest
  manager_options f = record {
    metrics = metrics_options f;
    webhook_server = webhook_options f;
    health_probe_bind_address = f.probe_addr;
    leader_election = f.enable_leader_election;
    leader_election_id = lit "247e2318.werf.io";
  }
