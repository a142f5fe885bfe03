-- ===== src/Cluster/ContourCerts.antt =====
-- pkg/cluster/contour_certs.go: the certificates of Contour and Envoy.
use ekco.Prelude.{
  ◌+◌, String, Bool, true, false, ◌||◌, Option, none, some, List, [], ◌∷◌, ◌==◌, leb, if◌then◌else◌,
  lookup, insert,
}
use ekco.Errors.{is_not_found_err, Result, failure, wrapped, ok, err}
use ekco.Kube.{
  Secret, Certificate, Call, Action, pure, raise, asks, wrap, send, ◌>>=◌, ◌>>◌, expect, format_now,
  done,
}
use ekco.Cluster.Config.{ControllerConfig}
use ekco.Cluster.Storage.{value_or_empty}

-- The certificate of the CA, of Contour and of Envoy.
pub record ReadCerts : Type 0 where
  pub ca : Certificate
  pub contour : Certificate
  pub envoy : Certificate

abbrev only_cert : Option (List Certificate) → Action Certificate
only_cert none = raise (failure "parse")
only_cert (some []) = raise (failure "expected exactly 1 cert")
only_cert (some (cert ∷ [])) = pure cert
only_cert (some (cert ∷ next ∷ certs)) = raise (failure "expected exactly 1 cert")

unfoldable pub parse_one : String → Secret → Action Certificate
parse_one key s = do
  parsed ← asks (λ env. env.parse_certs (value_or_empty (lookup key s.contents)))
  only_cert parsed

abbrev found_secret : Result Secret → Action (Option Secret)
found_secret (ok s) = pure (some s)
found_secret (err e) = if is_not_found_err e then pure none else raise (wrapped "get secret" e)

abbrev with_envoy : Secret → Option Secret → Action (Option ReadCerts)
with_envoy contour none = pure none
with_envoy contour (some envoy) = do
  ca_cert ← parse_one "ca.crt" contour
  contour_cert ← parse_one "tls.crt" contour
  envoy_cert ← parse_one "tls.crt" envoy
  pure (some (record { ca = ca_cert; contour = contour_cert; envoy = envoy_cert }))

abbrev with_contour : String → String → Option Secret → Action (Option ReadCerts)
with_contour ns envoy_name none = pure none
with_contour ns envoy_name (some contour) = do
  read ← send (Call.get_secret ns envoy_name)
  envoy ← found_secret read
  with_envoy contour envoy

-- `none` if one of the two secrets is missing.
unfoldable pub read_contour_certs : String → String → String → Action (Option ReadCerts)
read_contour_certs ns contour_name envoy_name = do
  read ← send (Call.get_secret ns contour_name)
  contour ← found_secret read
  with_contour ns envoy_name contour

-- Each certificate is asked for the time it has left, up to the first that has too little.
unfoldable pub should_rotate_contour_certs : ControllerConfig → ReadCerts → Action Bool
should_rotate_contour_certs cfg read = do
  now ← send Call.now
  if leb read.ca.not_after (now + cfg.rotate_certs_ttl) then pure true else do
    now ← send Call.now
    if leb read.contour.not_after (now + cfg.rotate_certs_ttl)
        then pure true
        else do now ← send Call.now; pure (leb read.envoy.not_after (now + cfg.rotate_certs_ttl))

abbrev pub with_cert : String → String → String → Secret → Secret
with_cert ca cert key s = record s {
  contents = insert "tls.key" key (insert "tls.crt" cert (insert "ca.crt" ca s.contents));
}

unfoldable pub update_contour_certs : String → String → String → Action (Unit {0})
update_contour_certs ns contour_name envoy_name = do
  made ← expect "failed to generate certificates" (send (Call.generate_contour_certs ns))
  contour ← expect "get secret" (send (Call.get_secret ns contour_name))
  expect "update secret" (
      send (
        Call.update_secret ns (
          with_cert made.ca_certificate made.contour_certificate made.contour_private_key contour)))
  envoy ← expect "get secret" (send (Call.get_secret ns envoy_name))
  expect "update secret" (
      send (
        Call.update_secret ns
          (with_cert made.ca_certificate made.envoy_certificate made.envoy_private_key envoy)))

abbrev rotate_if : ControllerConfig → Bool → Action (Unit {0})
rotate_if cfg false = done
rotate_if cfg true = do
  wrap "update certs"
      (update_contour_certs cfg.contour_namespace cfg.contour_cert_secret cfg.envoy_cert_secret)
  now ← format_now
  expect "restart envoy" (send (Call.restart_daemon_set_pods cfg.contour_namespace "envoy" now))

abbrev rotate_read : ControllerConfig → Option ReadCerts → Action (Unit {0})
rotate_read cfg none = done
rotate_read cfg (some read) = do due ← should_rotate_contour_certs cfg read; rotate_if cfg due

unfoldable pub rotate_contour_certs : ControllerConfig → Action (Unit {0})
rotate_contour_certs cfg =
    if cfg.contour_namespace == "" || (cfg.contour_cert_secret == "" || cfg.envoy_cert_secret == "")
    then done
    else do
      read ←
          wrap "read contour certificates"
            (read_contour_certs cfg.contour_namespace cfg.contour_cert_secret cfg.envoy_cert_secret)
      rotate_read cfg read
