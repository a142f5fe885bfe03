-- ===== src/Cli/RegenCert.antt =====
-- cmd/ekco/cli/regen-cert.go: the certificate of the API server is made again, with names added and
-- dropped. A map from the text of a name to the name is the list of its keys.
pub mod Names
pub mod Renewed
use ekco.Prelude.{
  ℕ, String, Option, none, some, List, [], ◌∷◌, ◌++◌, map, ◌==◌, if◌then◌else◌, contains,
}
use ekco.Errors.{failure, ok}
use ekco.Kube.{
  Certificate, RenewalConfig, Call, Action, pure, raise, asks, send, ◌>>=◌, ◌>>◌, expect,
}
use ekco.Prelude.Text.{split}
use ekco.Cluster.RegistryCert.{get_encryption_algorithm_type}

-- What `String` gives of a nil `net.IP`.
abbrev pub nil_ip_text : String
nil_ip_text = "<nil>"

-- `keys[k] = k`
abbrev pub add_key : String → List String → List String
add_key k keys = if contains keys k then keys else keys ++ k ∷ []

-- IP addresses, then DNS names
abbrev pub AltNames : Type 0
AltNames = List String × List String

unfoldable pub read_drops : (String → Option String) → List String → AltNames
read_drops parse_ip [] = ([], [])
read_drops parse_ip (text ∷ texts) =
    let (ips, names) = read_drops parse_ip texts in
    elim (parse_ip text) [ some ip ↦ (add_key ip ips, names) | none ↦ (ips, add_key text names) ]

-- The loops over the names of the old certificate; `kept` are those that were included before.
unfoldable pub keep_ips : List String → List String → List String → List String
keep_ips dropped kept [] = kept
keep_ips dropped kept (ip ∷ ips) =
    keep_ips dropped (if contains dropped ip then kept else add_key ip kept) ips

unfoldable pub keep_names : List String → List String → List String → List String
keep_names dropped kept [] = kept
keep_names dropped kept (name ∷ names) =
    keep_names dropped
      (if name == "" then kept else if contains dropped name then kept else add_key name kept) names

-- A name that is no address is looked up by the text of the nil address.
abbrev pub add_name : String → Option String → AltNames → AltNames
add_name text (some ip) (ips, names) = (add_key ip ips, names)
add_name text none (ips, names) =
    (ips, if contains names nil_ip_text then names else add_key text names)

unfoldable pub add_names : (String → Option String) → AltNames → List String → AltNames
add_names parse_ip kept [] = kept
add_names parse_ip kept (text ∷ texts) =
    add_names parse_ip (if text == "" then kept else add_name text (parse_ip text) kept) texts

abbrev pub alt_names : (String → Option String) → List String → List String → Certificate → AltNames
alt_names parse_ip added dropped cert =
    let (drop_ips, drop_names) = read_drops parse_ip dropped in
    add_names parse_ip
      (keep_ips drop_ips [] cert.ip_addresses, keep_names drop_names [] cert.dns_names) added

abbrev only_cert : List Certificate → Action Certificate
only_cert (cert ∷ []) = pure cert
only_cert _ = raise (failure "Expected exactly 1 cert")

abbrev supported : Option String → Action String
supported none = raise (failure "get encryption algorithm type")
supported (some algorithm) = pure algorithm

abbrev pub pki_dir : String
pki_dir = "/etc/kubernetes/pki"

abbrev pub cert_path : String
cert_path = "/etc/kubernetes/pki/apiserver.crt"

abbrev pub renewal_config : Certificate → String → List String → List String → RenewalConfig
renewal_config cert algorithm ips names = record {
  common_name = cert.common_name;
  organization = cert.organization;
  ip_addresses = ips;
  dns_names = names;
  usages = cert.ext_key_usage;
  not_after = cert.not_after;
  encryption_algorithm = algorithm;
}

-- The two loops that fill `AltNames` run over maps.
abbrev pub in_map_order : ℕ → List String → Action (List String)
in_map_order loop keys env t = (ok (env.map_order loop t keys), t)

-- The configuration, of the lists of names that were split at commas.
unfoldable pub new_config : List String → List String → Certificate → Action RenewalConfig
new_config added dropped cert = do
  algorithm ← supported (get_encryption_algorithm_type cert.public_key)
  names ← asks (λ env. alt_names env.parse_ip added dropped cert)
  ips ← in_map_order 10 names.0
  dns_names ← in_map_order 11 names.1
  pure (renewal_config cert algorithm ips dns_names)

unfoldable pub regen_cert : String → String → Action (Unit {0})
regen_cert add_alt_names drop_alt_names = do
  certs ← expect "parse cert" (send (Call.certs_from_file cert_path))
  cert ← only_cert certs
  config ← new_config (split b',' add_alt_names) (split b',' drop_alt_names) cert
  expect "parse CA from /etc/kubernets/pki" (send (Call.load_certificate_authority pki_dir))
  (new_cert, new_key) ← expect "regenerate" (send (Call.renew_certificate config))
  expect "write new cert to /etc/kubernetes/pki/apiserver.crt"
      (send (Call.write_cert_and_key pki_dir "apiserver" new_cert new_key))
