-- ===== src/Cluster/RegistryCert.antt =====
-- pkg/cluster/registry_cert.go and pkg/util/cert.go: the certificate of the registry.
pub mod Renewal
use ekco.Prelude.{
  ℕ, ◌+◌, ◌*◌, String, Bool, false, ◌||◌, Option, none, some, List, [], ◌∷◌, ◌==◌, ltb, eqb,
  if◌then◌else◌, is_empty, lookup, insert,
}
use ekco.Errors.{is_not_found_err, Result, failure, wrapped, ok, err}
use ekco.Kube.{
  Secret, PublicKey, Certificate, CertTemplate, rsa_key, ecdsa_key, other_key, Call, Action, pure,
  raise, asks, wrap, send, ◌>>=◌, ◌>>◌, expect, done, Env,
}
use ekco.Cluster.Config.{ControllerConfig}
use ekco.Cluster.Storage.{value_or_empty}

abbrev rsa_algorithm : ℕ → Option String
rsa_algorithm bits =
    if eqb bits 2048
    then some "RSA-2048"
    else if eqb bits 3072
    then some "RSA-3072"
    else if eqb bits 4096
    then some "RSA-4096"
    else none

abbrev pub get_encryption_algorithm_type : PublicKey → Option String
get_encryption_algorithm_type (rsa_key size) = rsa_algorithm (size * 8)
get_encryption_algorithm_type (ecdsa_key curve) =
    if curve == "P-256" then some "ECDSA-P256" else none
get_encryption_algorithm_type other_key = none

pub record CertConfig : Type 0 where
  pub common_name : String
  pub organization : List String
  pub ip_addresses : List String
  pub dns_names : List String
  pub usages : List ℕ
  pub not_before : Option ℕ
  pub not_after : Option ℕ
  pub public_key_algorithm : String

abbrev config_of : Certificate → ℕ → ℕ → String → CertConfig
config_of cert from to algorithm = record {
  common_name = cert.common_name;
  organization = cert.organization;
  ip_addresses = cert.ip_addresses;
  dns_names = cert.dns_names;
  usages = cert.ext_key_usage;
  not_before = some from;
  not_after = some to;
  public_key_algorithm = algorithm;
}

abbrev config_with : Certificate → ℕ → ℕ → Option String → Action CertConfig
config_with cert from to none = raise (failure "get encryption algorithm type")
config_with cert from to (some algorithm) = pure (config_of cert from to algorithm)

unfoldable pub cert_to_config : Certificate → Action CertConfig
cert_to_config cert = do
  now ← send Call.now
  period ← asks (λ env. env.certificate_validity_period)
  config_with cert now (now + period) (get_encryption_algorithm_type cert.public_key)

abbrev time_or : ℕ → Option ℕ → ℕ
time_or default none = default
time_or default (some time) = time

abbrev pub usage_of : Bool → List String
usage_of is_ca = "KeyEncipherment" ∷ "DigitalSignature" ∷ (if is_ca then "CertSign" ∷ [] else [])

abbrev template : CertConfig → Env → ℕ → ℕ → ℕ → Bool → CertTemplate
template cfg env serial from to is_ca = record {
  common_name = cfg.common_name;
  organization = cfg.organization;
  dns_names = env.remove_duplicate_names cfg.dns_names;
  ip_addresses = env.remove_duplicate_names cfg.ip_addresses;
  serial_number = serial;
  not_before = time_or from cfg.not_before;
  not_after = time_or to cfg.not_after;
  key_usage = usage_of is_ca;
  ext_key_usage = cfg.usages;
  is_ca = is_ca;
}

unfoldable pub new_signed_cert : CertConfig → Bool → Action String
new_signed_cert cfg is_ca = do
  serial ← expect "serial" (send Call.random_serial)
  if cfg.common_name == "" then raise (failure "must specify a CommonName") else do
    from ← send Call.now
    to ← send Call.now
    filled ← asks (λ env. template cfg env serial from (to + env.certificate_validity_period) is_ca)
    expect "create certificate" (send (Call.create_certificate filled))

-- The certificate and its key, both as the text that is stored.
unfoldable pub generate_new_cert_and_key : CertConfig → Action (String × String)
generate_new_cert_and_key cfg =
    if is_empty cfg.usages then raise (failure "must specify at least one ExtKeyUsage") else do
      key ←
          expect "unable to create private key"
            (send (Call.new_private_key cfg.public_key_algorithm))
      cert ← wrap "unable to sign certificate" (new_signed_cert cfg false)
      pure (cert, key)

abbrev only_cert : Option (List Certificate) → Action (Option Certificate)
only_cert none = raise (failure "parse registry.crt")
only_cert (some []) = raise (failure "expected exactly 1 cert in registry.crt")
only_cert (some (cert ∷ [])) = pure (some cert)
only_cert (some (cert ∷ next ∷ certs)) = raise (failure "expected exactly 1 cert in registry.crt")

abbrev cert_found : Result Secret → Action (Option Certificate)
cert_found (err e) = if is_not_found_err e then pure none else raise (wrapped "get secret" e)
cert_found (ok s) = do
  parsed ← asks (λ env. env.parse_certs (value_or_empty (lookup "registry.crt" s.contents)))
  only_cert parsed

unfoldable pub read_registry_cert : String → String → Action (Option Certificate)
read_registry_cert ns name = do found ← send (Call.get_secret ns name); cert_found found

abbrev pub registry_renewed : String → String → Secret → Secret
registry_renewed cert key s = record s {
  contents = insert "registry.key" key (insert "registry.crt" cert s.contents);
}

unfoldable pub update_registry_cert : String → String → String → String → Action (Unit {0})
update_registry_cert ns name cert key = do
  s ← expect "get secret" (send (Call.get_secret ns name))
  expect "update secret" (send (Call.update_secret ns (registry_renewed cert key s)))

-- From a certificate that is about to expire.
unfoldable pub renew : String → String → Certificate → Action (Unit {0})
renew ns name cert = do
  expect "load cluster CA" (send (Call.load_certificate_authority "/etc/kubernetes/pki"))
  config ← wrap "convert cert to config" (cert_to_config cert)
  (new_cert, new_key) ← wrap "generate new cert" (generate_new_cert_and_key config)
  wrap "save new cert" (update_registry_cert ns name new_cert new_key)
  expect "restart registry" (send (Call.delete_task_pods ns "app=registry"))

abbrev renew_read : ControllerConfig → Option Certificate → Action (Unit {0})
renew_read cfg none = done
renew_read cfg (some cert) = do
  now ← send Call.now
  if ltb (now + cfg.rotate_certs_ttl) cert.not_after
      then done
      else renew cfg.registry_cert_namespace cfg.registry_cert_secret cert

unfoldable pub rotate_registry_cert : ControllerConfig → Action (Unit {0})
rotate_registry_cert cfg =
    if cfg.registry_cert_namespace == "" || cfg.registry_cert_secret == "" then done else do
      cert ←
          wrap "load existing certificate"
            (read_registry_cert cfg.registry_cert_namespace cfg.registry_cert_secret)
      renew_read cfg cert
