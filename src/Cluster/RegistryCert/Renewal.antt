-- ===== src/Cluster/RegistryCert/Renewal.antt =====
-- pkg/cluster/registry_cert.go: what a renewed certificate keeps of the old one.
use ekco.Prelude.{
  ℕ, ◌+◌, String, ◌≡◌, refl, ◌⊎◌, true, false, Option, none, some, [], ◌∷◌, arith, eq_iff,
}
use ekco.Errors.{Result, ok, err}
use ekco.Kube.{
  PublicKey, Certificate, CertTemplate, rsa_key, ecdsa_key, other_key, Call, Trace, Action, ◌>>=◌,
  Env,
}
use ekco.Cluster.RegistryCert.{
  get_encryption_algorithm_type, cert_to_config, new_signed_cert, generate_new_cert_and_key,
}

-- The certificate that is asked for: the names, the usages and the organization of the old one, for a
-- year from now, and no CA.
abbrev pub renewed : Env → Certificate → ℕ → ℕ → CertTemplate
renewed env cert now serial = record {
  common_name = cert.common_name;
  organization = cert.organization;
  dns_names = env.remove_duplicate_names cert.dns_names;
  ip_addresses = env.remove_duplicate_names cert.ip_addresses;
  serial_number = serial;
  not_before = now;
  not_after = now + env.certificate_validity_period;
  key_usage = "KeyEncipherment" ∷ "DigitalSignature" ∷ [];
  ext_key_usage = cert.ext_key_usage;
  is_ca = false;
}

abbrev pub calls_of : Env → Certificate → String → ℕ → Trace → Trace
calls_of env cert algorithm serial t =
    Call.create_certificate (renewed env cert (env.answer Call.now t) serial)
    ∷ Call.now
    ∷ Call.now
    ∷ Call.random_serial
    ∷ Call.new_private_key algorithm
    ∷ Call.now
    ∷ t

-- `generateNewCertAndKey` of the configuration that `certToConfig` reads off a certificate.
abbrev pub renewal : Certificate → Action (String × String)
renewal cert = do config ← cert_to_config cert; generate_new_cert_and_key config

-- The keys that are renewed, by the algorithm that makes one of the same kind; an RSA key has its size in
-- bytes.
abbrev pub IsMadeBy : PublicKey → String → Type 0
IsMadeBy (rsa_key size) algorithm =
    (size ≡ 256) × (algorithm ≡ "RSA-2048")
    ⊎ (size ≡ 384) × (algorithm ≡ "RSA-3072")
    ⊎ (size ≡ 512) × (algorithm ≡ "RSA-4096")
IsMadeBy (ecdsa_key curve) algorithm = (curve ≡ "P-256") × (algorithm ≡ "ECDSA-P256")
IsMadeBy other_key algorithm = true ≡ false

get_encryption_algorithm_type-IsMadeBy :
    (key : PublicKey) (algorithm : String)
    → get_encryption_algorithm_type key ≡ some algorithm
    → IsMadeBy key algorithm
get_encryption_algorithm_type-IsMadeBy (rsa_key size) algorithm known = ground arith
get_encryption_algorithm_type-IsMadeBy (ecdsa_key curve) algorithm known =
    ground (arith, eq_iff curve "P-256")
get_encryption_algorithm_type-IsMadeBy other_key algorithm known = ground arith

module _ (cert : Certificate) (env : Env) (t u : Trace) (made : String × String)
    (worked : renewal cert env t ≡ (ok made, u)) where
  -- The key and the certificate that were given for the calls.
  abbrev pub Made : Type 0
  Made =
      (algorithm : String) × (serial : ℕ) × IsMadeBy cert.public_key algorithm
      × (u ≡ calls_of env cert algorithm serial t)
      × (env.answer (Call.new_private_key algorithm) (Call.now ∷ t) ≡ ok made.1)
      × (env.answer (Call.create_certificate (renewed env cert (env.answer Call.now t) serial)) (
            Call.now
            ∷ Call.now
            ∷ Call.random_serial
            ∷ Call.new_private_key algorithm
            ∷ Call.now
            ∷ t)
          ≡ ok made.0)

  with_cert :
      (algorithm key : String) (serial : ℕ) (r : Result String)
      → get_encryption_algorithm_type cert.public_key ≡ some algorithm
      → env.answer (Call.new_private_key algorithm) (Call.now ∷ t) ≡ ok key
      → env.answer Call.random_serial (Call.new_private_key algorithm ∷ Call.now ∷ t) ≡ ok serial
      → env.answer
          (Call.create_certificate (renewed env cert (env.answer Call.now t) serial))
          (Call.now ∷ Call.now ∷ Call.random_serial ∷ Call.new_private_key algorithm ∷ Call.now ∷ t)
        ≡ r
      → Made
  unfolding cert_to_config generate_new_cert_and_key new_signed_cert
  with_cert algorithm key serial (ok text) known drawn numbered signed = (
    algorithm,
    serial,
    get_encryption_algorithm_type-IsMadeBy cert.public_key algorithm known,
    grind (arith, worked, known, drawn, numbered, signed),
    grind (arith, worked, known, drawn, numbered, signed),
    grind (arith, worked, known, drawn, numbered, signed),
  )
  with_cert algorithm key serial (err e) known drawn numbered signed =
      grind (arith, worked, known, drawn, numbered, signed)

  with_serial :
      (algorithm key : String) (r : Result ℕ)
      → get_encryption_algorithm_type cert.public_key ≡ some algorithm
      → env.answer (Call.new_private_key algorithm) (Call.now ∷ t) ≡ ok key
      → env.answer Call.random_serial (Call.new_private_key algorithm ∷ Call.now ∷ t) ≡ r
      → Made
  unfolding cert_to_config generate_new_cert_and_key new_signed_cert
  with_serial algorithm key (ok serial) known drawn numbered =
      with_cert algorithm key serial _ known drawn numbered refl
  with_serial algorithm key (err e) known drawn numbered =
      grind (arith, worked, known, drawn, numbered)

  with_key :
      (algorithm : String) (r : Result String)
      → get_encryption_algorithm_type cert.public_key ≡ some algorithm
      → env.answer (Call.new_private_key algorithm) (Call.now ∷ t) ≡ r
      → Made
  unfolding cert_to_config generate_new_cert_and_key
  with_key algorithm (ok key) known drawn = with_serial algorithm key _ known drawn refl
  with_key algorithm (err e) known drawn = grind (arith, worked, known, drawn)

  with_algorithm : (o : Option String) → get_encryption_algorithm_type cert.public_key ≡ o → Made
  unfolding cert_to_config
  with_algorithm (some algorithm) known = with_key algorithm _ known refl
  with_algorithm none known = grind (arith, worked, known)

  pub renewal-calls : Made
  renewal-calls = with_algorithm (get_encryption_algorithm_type cert.public_key) refl
