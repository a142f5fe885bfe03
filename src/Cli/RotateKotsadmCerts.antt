-- ===== src/Cli/RotateKotsadmCerts.antt =====
-- cmd/ekco/cli/rotate-kotsadm-certs.go: the certificate of the proxy is renewed if it ends before a time
-- to live that is given to the command.
use ekco.Prelude.{ℕ}
use ekco.Kube.{Action, lift, wrap, ◌>>=◌, ◌>>◌}
use ekco.Cluster.Kotsadm.{rotate_kurl_proxy_cert}
use ekco.Cli.Init.{EkcoConfig, Viper, Host, init_ekco_config, init_cluster_controller}

abbrev with_ttl : ℕ → EkcoConfig → EkcoConfig
with_ttl ttl config = record config {
  controller = record config.controller { rotate_certs_ttl = ttl };
}

unfoldable pub rotate_kotsadm_certs_cmd : Viper → Host → ℕ → Action (Unit {0})
rotate_kotsadm_certs_cmd v host ttl = do
  config ← wrap "failed to initialize config" (init_ekco_config v)
  wrap "failed to initialize logger" (lift host.logger)
  controller ←
      wrap "failed to initialize cluster controller"
        (init_cluster_controller host (with_ttl ttl config))
  rotate_kurl_proxy_cert controller
