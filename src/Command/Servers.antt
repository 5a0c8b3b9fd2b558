-- ===== src/Command/Servers.antt =====
-- cmd/main.go: how the servers of the command are protected.
use k8s_werf_operator_go.Base.{
  true, some, List, [], ◌∷◌, GoString, lit, refl, ◌≡◌, ◌↔◌, arith, if◌then◌else◌,
}
use k8s_werf_operator_go.Command.{
  Flags, TlsConfig, Certificates, manager_options, metrics_options, webhook_options, tls_options,
  disable_http2, certificates_in, no_certificates, with_authentication_and_authorization,
}

-- A server applies its TLS options in order to the configuration that it starts from.
abbrev pub configured :
    {Rest : Type 0} → List (TlsConfig Rest → TlsConfig Rest) → TlsConfig Rest → TlsConfig Rest
configured [] c = c
configured (option ∷ options) c = configured options (option c)

-- The protocols that a server offers.
abbrev pub offered : Flags → List GoString → List GoString
offered f protos = if f.enable_http2 then protos else lit "http/1.1" ∷ []

-- The certificates are read from the directory, if there is one.
abbrev pub AreFrom : GoString → GoString → GoString → Certificates → Type 0
AreFrom [] name key certificates = certificates ≡ no_certificates
AreFrom (c ∷ path) name key certificates =
    certificates ≡ record { cert_dir = c ∷ path; cert_name = name; key_name = key }

certificates_in-AreFrom :
    (path name key : GoString) → AreFrom path name key (certificates_in path name key)
unfolding certificates_in
certificates_in-AreFrom [] name key = refl
certificates_in-AreFrom (c ∷ path) name key = refl

-- Unless HTTP/2 is asked for, both servers offer HTTP/1.1 and nothing else, whatever their TLS
-- configuration was; if it is, the configuration is left as it is. The metrics are served at the
-- address of their flag; they are served by HTTPS exactly if `metrics-secure` is set, and requests
-- for them are authenticated and authorized exactly then. The certificate options of each server are
-- set to its flags if a directory is named for it, and otherwise left empty.
pub manager_options-protects :
    {Rest : Type 0} (f : Flags) (c : TlsConfig Rest)
    → let options = manager_options {Rest = Rest} f in
      let metrics = options.metrics in
      let webhook = options.webhook_server in
      (configured metrics.tls_opts c ≡ record c { next_protos = offered f c.next_protos })
      × (configured webhook.tls_opts c ≡ record c { next_protos = offered f c.next_protos })
      × (metrics.bind_address ≡ f.metrics_addr)
      × ((metrics.secure_serving ≡ true) ↔ (f.secure_metrics ≡ true))
      × ((metrics.filter_provider ≡ some with_authentication_and_authorization)
          ↔ (f.secure_metrics ≡ true))
      × AreFrom f.metrics_cert_path f.metrics_cert_name f.metrics_cert_key metrics.certificates
      × AreFrom f.webhook_cert_path f.webhook_cert_name f.webhook_cert_key webhook.certificates
unfolding manager_options metrics_options webhook_options tls_options disable_http2
manager_options-protects f c = (
  ground arith,
  ground arith,
  refl,
  ground arith,
  ground arith,
  certificates_in-AreFrom f.metrics_cert_path f.metrics_cert_name f.metrics_cert_key,
  certificates_in-AreFrom f.webhook_cert_path f.webhook_cert_name f.webhook_cert_key,
)
