-- ===== src/Cluster/Kotsadm.antt =====
-- pkg/cluster/kotsadm.go: the replicas of kotsadm's database, and the certificates that it uses.
use Prim.Native.String.{◌++◌ as join_text}
use text.Mathlib.Text.{starts_with}
use ekco.Prelude.{
  ℕ, ◌+◌, String, Bool, not, ◌&&◌, ◌||◌, Option, none, some, List, [], ◌∷◌, ◌==◌, ltb, eqb,
  if◌then◌else◌, lookup, insert,
}
use ekco.Errors.{is_not_found_err, Result, failure, wrapped, ok, err}
use ekco.Kube.{
  Container, Workload, Secret, Certificate, Call, Action, raise, asks, wrap, send, ◌>>=◌, expect,
  done,
}
use ekco.Cluster.Config.{ControllerConfig}
use ekco.Cluster.Storage.{value_or_empty}

abbrev pub kotsadm_rqlite_ha_replica_count : ℕ
kotsadm_rqlite_ha_replica_count = 3

-- The first argument with the prefix is replaced.
unfoldable pub set_bootstrap_expect : String → List String → List String
set_bootstrap_expect desired [] = []
set_bootstrap_expect desired (arg ∷ args) =
    let rest = set_bootstrap_expect desired args in
    if starts_with arg "-bootstrap-expect"
    then join_text "-bootstrap-expect=" desired ∷ args
    else arg ∷ rest

-- A statefulset has a container: the API server takes none without.
abbrev first_container : String → List Container → List Container
first_container desired [] = []
first_container desired (c ∷ containers) =
    record c { args = set_bootstrap_expect desired c.args } ∷ containers

abbrev pub rqlite_scaled : ℕ → String → Workload → Workload
rqlite_scaled desired text w = record w {
  replicas = some desired;
  containers = first_container text w.containers;
}

abbrev pub current_scale : Workload → ℕ
current_scale w = elim w.replicas [ none ↦ 0 | some n ↦ n ]

abbrev scale_found : String → ℕ → Result Workload → Action (Unit {0})
scale_found ns desired (err e) =
    if is_not_found_err e then done else raise (wrapped "get kotsadm-rqlite statefulset" e)
scale_found ns desired (ok w) = if eqb (current_scale w) desired then done else do
  text ← asks (λ env. env.format_int desired)
  expect "update kotsadm-rqlite statefulset"
      (send (Call.update_stateful_set ns (rqlite_scaled desired text w)))

unfoldable pub scale_kotsadm_rqlite : String → ℕ → Action (Unit {0})
scale_kotsadm_rqlite ns desired = do
  found ← send (Call.get_stateful_set ns "kotsadm-rqlite")
  scale_found ns desired found

abbrev pub enable_ha_kotsadm : String → Action (Unit {0})
enable_ha_kotsadm ns =
    wrap "failed to scale up kotsadm-rqlite"
      (scale_kotsadm_rqlite ns kotsadm_rqlite_ha_replica_count)

-- Only what differs is set.
abbrev set_changed : String → String → List (String × String) → List (String × String)
set_changed key value contents =
    if value_or_empty (lookup key contents) == value then contents else insert key value contents

abbrev pub kubelet_client_secret : String → String → Secret → Secret
kubelet_client_secret cert key s = record s {
  contents = set_changed "client.key" key (set_changed "client.crt" cert s.contents);
}

abbrev has_kubelet_client : String → String → Secret → Bool
has_kubelet_client cert key s =
    value_or_empty (lookup "client.crt" s.contents) == cert
    && value_or_empty (lookup "client.key" s.contents) == key

abbrev kubelet_found : ControllerConfig → Result Secret → Action (Unit {0})
kubelet_found cfg (err e) =
    if is_not_found_err e then done else raise (wrapped "get kubelet client secret" e)
kubelet_found cfg (ok s) = do
  cert ←
      expect "read crt" (send (Call.read_file "/etc/kubernetes/pki/apiserver-kubelet-client.crt"))
  key ← expect "read key" (send (Call.read_file "/etc/kubernetes/pki/apiserver-kubelet-client.key"))
  if has_kubelet_client cert key s
      then done
      else expect "update" (
          send (
            Call.update_secret cfg.kotsadm_kubelet_cert_namespace
              (kubelet_client_secret cert key s)))

unfoldable pub update_kubelet_client_cert_secret : ControllerConfig → Action (Unit {0})
update_kubelet_client_cert_secret cfg = do
  found ← send (Call.get_secret cfg.kotsadm_kubelet_cert_namespace cfg.kotsadm_kubelet_cert_secret)
  kubelet_found cfg found

abbrev pub kotsadm_host : String
kotsadm_host = "kotsadm.default.svc.cluster.local"

-- A certificate that was uploaded is left alone.
abbrev pub is_custom : Certificate → Bool
is_custom cert =
    not (cert.issuer_common_name == "") && not (starts_with cert.issuer_common_name kotsadm_host)
    || not (starts_with cert.common_name kotsadm_host)

abbrev pub proxy_secret : String → String → Secret → Secret
proxy_secret cert key s = record s {
  contents = insert "tls.key" key (insert "tls.crt" cert s.contents);
}

abbrev renew : ControllerConfig → Secret → Certificate → Action (Unit {0})
renew cfg s cert = do
  (new_cert, new_key) ←
      expect "generate self-signed cert"
        (send (Call.generate_self_signed kotsadm_host cert.ip_addresses cert.dns_names))
  expect "update"
      (send (Call.update_secret cfg.kurl_proxy_cert_namespace (proxy_secret new_cert new_key s)))

abbrev renew_parsed : ControllerConfig → Secret → Option (List Certificate) → Action (Unit {0})
renew_parsed cfg s none = raise (failure "parse kurl proxy secret tls.crt")
renew_parsed cfg s (some []) = raise (failure "no certs found in kurl proxy secret tls.crt")
renew_parsed cfg s (some (cert ∷ certs)) = do
  now ← send Call.now
  if ltb (now + cfg.rotate_certs_ttl) cert.not_after || is_custom cert
      then done
      else renew cfg s cert

abbrev proxy_found : ControllerConfig → Result Secret → Action (Unit {0})
proxy_found cfg (err e) =
    if is_not_found_err e then done else raise (wrapped "get kurl proxy secret" e)
proxy_found cfg (ok s) = do
  parsed ← asks (λ env. env.parse_certs (value_or_empty (lookup "tls.crt" s.contents)))
  renew_parsed cfg s parsed

unfoldable pub rotate_kurl_proxy_cert : ControllerConfig → Action (Unit {0})
rotate_kurl_proxy_cert cfg = do
  found ← send (Call.get_secret cfg.kurl_proxy_cert_namespace cfg.kurl_proxy_cert_secret)
  proxy_found cfg found
