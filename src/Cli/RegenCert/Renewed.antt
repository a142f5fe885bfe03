-- ===== src/Cli/RegenCert/Renewed.antt =====
-- cmd/ekco/cli/regen-cert.go: what is asked of the renewer, and where its certificate is written.
use mathlib.Core.Path.{subst}
use ekco.Prelude.{
  ℕ, String, ◌≡◌, refl, ◌∙◌, false, Option, none, some, List, [], ◌∷◌, arith, contains,
}
use ekco.Errors.{Result, ok, err}
use ekco.Kube.{
  bind-inv, Certificate, RenewalConfig, Call, Trace, Action, send, ◌>>=◌, ◌>>◌, expect, Env,
}
use ekco.Prelude.Text.{split}
use ekco.Cluster.RegistryCert.{get_encryption_algorithm_type}
use ekco.Cli.RegenCert.{
  AltNames, nil_ip_text, alt_names, renewal_config, new_config, regen_cert, cert_path, pki_dir,
}
use ekco.Cli.RegenCert.Names.{wanted_ip, wanted_name, alt_names-ips, alt_names-names}

-- The old certificate with new names, no later end and the same kind of key.
abbrev pub Renews : Certificate → RenewalConfig → Type 0
Renews cert config =
    (config.common_name ≡ cert.common_name)
    × (config.organization ≡ cert.organization)
    × (config.usages ≡ cert.ext_key_usage)
    × (config.not_after ≡ cert.not_after)
    × (get_encryption_algorithm_type cert.public_key ≡ some config.encryption_algorithm)

module _ (add_alt_names drop_alt_names : String) (env : Env) where
  abbrev added : List String
  added = split b',' add_alt_names

  abbrev dropped : List String
  dropped = split b',' drop_alt_names

  abbrev pub HasNames : Certificate → RenewalConfig → Type 0
  HasNames cert config =
      (k : String)
      → (contains config.ip_addresses k ≡ wanted_ip env.parse_ip added dropped cert k)
        × (contains config.dns_names k ≡ wanted_name env.parse_ip added dropped cert k)

  -- One certificate was read; the renewer got its configuration, and what it gave was written.
  abbrev pub calls : RenewalConfig → String × String → Trace → Trace
  calls config made t =
      Call.write_cert_and_key pki_dir "apiserver" made.0 made.1
      ∷ Call.renew_certificate config
      ∷ Call.load_certificate_authority pki_dir
      ∷ Call.certs_from_file cert_path
      ∷ t

  module _ (cert : Certificate)
      (keeps : (n : ℕ) (v : Trace) (keys : List String) (k : String)
        → contains (env.map_order n v keys) k ≡ contains keys k)
      (no_nil : wanted_name env.parse_ip added dropped cert nil_ip_text ≡ false) where
    abbrev RenewsAt : Trace → Result RenewalConfig × Trace → Type 0
    RenewsAt t (ok config, u) = Renews cert config × HasNames cert config × (u ≡ t)
    RenewsAt t (err e, u) = Unit {0}

    abbrev all_names : AltNames
    all_names = alt_names env.parse_ip added dropped cert

    abbrev configured : String → Trace → RenewalConfig
    configured algorithm t =
        renewal_config cert algorithm (env.map_order 10 t all_names.0)
          (env.map_order 11 t all_names.1)

    configured-HasNames : (algorithm : String) (t : Trace) → HasNames cert (configured algorithm t)
    configured-HasNames algorithm t k = (
      keeps 10 t all_names.0 k ∙ alt_names-ips env.parse_ip added dropped cert k,
      keeps 11 t all_names.1 k ∙ alt_names-names env.parse_ip added dropped cert k no_nil,
    )

    new_config-Renews :
        (o : Option String) (config : RenewalConfig) (t u : Trace)
        → get_encryption_algorithm_type cert.public_key ≡ o
        → new_config added dropped cert env t ≡ (ok config, u)
        → Renews cert config × HasNames cert config × (u ≡ t)
    unfolding new_config
    new_config-Renews none config t u known worked = grind (arith, known, worked)
    new_config-Renews (some algorithm) config t u known worked =
        let same : ◌≡◌ {A = Result RenewalConfig × Trace} (ok (configured algorithm t), t)
            (ok config, u) =
          grind (arith, known, worked) in
        subst (λ p. RenewsAt t p) same
          ((refl, refl, refl, refl, known), configured-HasNames algorithm t, refl)

  -- The end of the command, once the configuration is made.
  abbrev issue : RenewalConfig → Action (Unit {0})
  issue config = do
    expect "parse CA from /etc/kubernets/pki" (send (Call.load_certificate_authority pki_dir))
    (new_cert, new_key) ← expect "regenerate" (send (Call.renew_certificate config))
    expect "write new cert to /etc/kubernetes/pki/apiserver.crt"
        (send (Call.write_cert_and_key pki_dir "apiserver" new_cert new_key))

  issue-calls :
      (config : RenewalConfig) (r : Result (String × String)) (t u : Trace)
      → env.answer (Call.renew_certificate config) (Call.load_certificate_authority pki_dir ∷ t) ≡ r
      → issue config env t ≡ (ok tt, u)
      → (made : String × String) × (u
          ≡ Call.write_cert_and_key pki_dir "apiserver" made.0 made.1
            ∷ Call.renew_certificate config
            ∷ Call.load_certificate_authority pki_dir
            ∷ t)
  issue-calls config (ok made) t u answered worked = (made, grind (arith, answered, worked))
  issue-calls config (err e) t u answered worked = grind (arith, answered, worked)

  pub regen_cert-Renews :
      (cert : Certificate) (t u : Trace)
      → ((n : ℕ) (v : Trace) (keys : List String) (k : String)
          → contains (env.map_order n v keys) k ≡ contains keys k)
      → wanted_name env.parse_ip added dropped cert nil_ip_text ≡ false
      → env.answer (Call.certs_from_file cert_path) t ≡ ok (cert ∷ [])
      → regen_cert add_alt_names drop_alt_names env t ≡ (ok tt, u)
      → (config : RenewalConfig) × (made : String × String) × (u ≡ calls config made t)
        × Renews cert config
        × HasNames cert config
  unfolding regen_cert
  regen_cert-Renews cert t u keeps no_nil found worked =
      let t₁ = Call.certs_from_file cert_path ∷ t in
      let started : (new_config added dropped cert >>= issue) env t₁ ≡ (ok tt, u) =
        grind (arith, found, worked) in
      let (config, made_config, last) =
        bind-inv (new_config added dropped cert) issue env t₁ u tt started in
      let (renews, names, same) =
        new_config-Renews cert keeps no_nil (get_encryption_algorithm_type cert.public_key) config
          t₁ (new_config added dropped cert env t₁).1 refl made_config in
      let at_start : issue config env t₁ ≡ (ok tt, u) =
        subst (λ v. issue config env v ≡ (ok tt, u)) same last in
      let (made, all) =
        issue-calls config
          (env.answer (Call.renew_certificate config)
            (Call.load_certificate_authority pki_dir ∷ t₁))
          t₁ u refl at_start in
      (config, made, all, renews, names)
