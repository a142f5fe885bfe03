-- ===== src/Rotate/Restarts.antt =====
-- pkg/rotate/rotate.go: which components a rotation restarts.
use mathlib.Core.Path.{subst}
use ekco.Prelude.{
  ℕ, String, ◌≡◌, refl, sym, Bool, true, false, not, ◌||◌, Option, none, some, List, [], ◌∷◌, arith,
  ◌==◌, eq_iff, ltb, if◌then◌else◌, contains,
}
use ekco.Errors.{Result, ok, err}
use ekco.Kube.{Call, Trace, pure, lift, wrap, send, ◌>>=◌, expect, Env, accepted}
use ekco.Rotate.{CertNames, RestartFlags, no_restarts, mark, rotate_each}

abbrev noted : Call → List String → List String
noted (Call.renew_using_local_ca name) before = name ∷ before
noted _ before = before

abbrev noted_in : Trace → List String
noted_in [] = []
noted_in (c ∷ t) = noted c (noted_in t)

-- The certificates that were renewed, newest first.
abbrev pub renewals : Env → Trace → List String
renewals env t = noted_in (accepted env t)

-- The names that decide are told from the others.
abbrev pub DistinctNames : CertNames → Type 0
DistinctNames names =
    ((names.controller_manager_conf == names.scheduler_conf) ≡ false)
    × ((names.controller_manager_conf == names.apiserver_etcd_client) ≡ false)
    × ((names.controller_manager_conf == names.apiserver_kubelet_client) ≡ false)
    × ((names.controller_manager_conf == names.front_proxy_client) ≡ false)
    × ((names.scheduler_conf == names.apiserver_etcd_client) ≡ false)
    × ((names.scheduler_conf == names.apiserver_kubelet_client) ≡ false)
    × ((names.scheduler_conf == names.front_proxy_client) ≡ false)

-- The controller manager and the scheduler are marked exactly with their own certificates, and the API
-- server with each of its three clients' certificates.
abbrev pub Marked : CertNames → RestartFlags → List String → Type 0
Marked names flags renewed =
    (flags.controller_manager ≡ contains renewed names.controller_manager_conf)
    × (flags.scheduler ≡ contains renewed names.scheduler_conf)
    × (flags.api_server ≡ (
        contains renewed names.apiserver_etcd_client
        || contains renewed names.apiserver_kubelet_client
        || contains renewed names.front_proxy_client))

mark-Marked :
    (names : CertNames) (name : String) (flags : RestartFlags) (renewed : List String)
    → DistinctNames names
    → Marked names flags renewed
    → Marked names (mark names name flags) (name ∷ renewed)
mark-Marked names name flags renewed distinct before = ground (
  arith,
  distinct,
  before,
  eq_iff name names.controller_manager_conf,
  eq_iff name names.scheduler_conf,
)

module _ (names : CertNames) (ttl : ℕ) (env : Env) (distinct : DistinctNames names) where
  renewals-renewed :
      (name : String) (u : Trace)
      → env.answer (Call.renew_using_local_ca name) u ≡ ok true
      → renewals env (Call.renew_using_local_ca name ∷ u) ≡ name ∷ renewals env u
  renewals-renewed name u answered = rw (answered)

  abbrev Flagged : Result (Option RestartFlags) × Trace → Type 0
  Flagged (err e, u) = Unit {0}
  Flagged (ok none, u) = Unit {0}
  Flagged (ok (some flags), u) = Marked names flags (renewals env u)

  -- The checks of one certificate, and what follows for the rest of them.
  module _ (name : String) (flags : RestartFlags) (certs : List String)
      (rest : (g : RestartFlags) (u : Trace)
        → Marked names g (renewals env u)
        → Flagged (rotate_each names ttl g certs env u)) where
    after_renewal :
        (r : Result Bool) (u : Trace)
        → env.answer (Call.renew_using_local_ca name) u ≡ r
        → Marked names flags (renewals env u)
        → Flagged (
            (wrap "renew certificate" (lift r) >>= λ renewed.
            if not renewed then pure none else rotate_each names ttl (mark names name flags) certs)
              env
              (Call.renew_using_local_ca name ∷ u))
    after_renewal (err e) u answered same = tt
    after_renewal (ok false) u answered same = tt
    after_renewal (ok true) u answered same =
        rest (mark names name flags) (Call.renew_using_local_ca name ∷ u) (
          subst (λ l. Marked names (mark names name flags) l)
            (sym (renewals-renewed name u answered))
            (mark-Marked names name flags (renewals env u) distinct same))

    if_due :
        (late : Bool) (u : Trace)
        → Marked names flags (renewals env u)
        → Flagged (
            (if late then rotate_each names ttl flags certs else do
              renewed ← expect "renew certificate" (send (Call.renew_using_local_ca name))
              if not renewed
                  then pure none
                  else rotate_each names ttl (mark names name flags) certs)
              env u)
    if_due true u same = rest flags u same
    if_due false u same = after_renewal (env.answer (Call.renew_using_local_ca name) u) u refl same

    after_left :
        (r : Result ℕ) (u : Trace)
        → Marked names flags (renewals env u)
        → Flagged (
            (wrap "get certificate expiration" (lift r) >>= λ left.
            if ltb ttl left then rotate_each names ttl flags certs else do
              renewed ← expect "renew certificate" (send (Call.renew_using_local_ca name))
              if not renewed
                  then pure none
                  else rotate_each names ttl (mark names name flags) certs)
              env u)
    after_left (err e) u same = tt
    after_left (ok left) u same = if_due (ltb ttl left) u same

    after_exists :
        (r : Result Bool) (u : Trace)
        → Marked names flags (renewals env u)
        → Flagged (
            (wrap "check for existing certificate" (lift r) >>= λ exists.
            if not exists then rotate_each names ttl flags certs else do
              left ← expect "get certificate expiration" (send (Call.residual_time name))
              if ltb ttl left then rotate_each names ttl flags certs else do
                renewed ← expect "renew certificate" (send (Call.renew_using_local_ca name))
                if not renewed
                    then pure none
                    else rotate_each names ttl (mark names name flags) certs)
              env u)
    after_exists (err e) u same = tt
    after_exists (ok false) u same = rest flags u same
    after_exists (ok true) u same =
        after_left (env.answer (Call.residual_time name) u) (Call.residual_time name ∷ u) same

  rotate_each-Flagged :
      (certs : List String) (flags : RestartFlags) (t : Trace)
      → Marked names flags (renewals env t)
      → Flagged (rotate_each names ttl flags certs env t)
  unfolding rotate_each
  rotate_each-Flagged [] flags t same = same
  rotate_each-Flagged (name ∷ certs) flags t same =
      after_exists name flags certs (rotate_each-Flagged certs)
        (env.answer (Call.certificate_exists name) t) (Call.certificate_exists name ∷ t) same

  flags_of :
      (run : Result (Option RestartFlags) × Trace) (flags : RestartFlags) (u : Trace)
      → Flagged run
      → run ≡ (ok (some flags), u)
      → Marked names flags (renewals env u)
  flags_of run flags u flagged worked = subst Flagged worked flagged

  -- If the names that kubeadm gives the certificates are distinct, none was renewed before, and the loop over
  -- the certificates ends at the end of its list without an error: the controller manager and the scheduler
  -- are to be restarted exactly if their own certificates were renewed, and the API server exactly if that
  -- of etcd's client, of the kubelet's client or of the front proxy was.
  pub rotate_each-marks :
      (certs : List String) (flags : RestartFlags) (t u : Trace)
      → renewals env t ≡ []
      → rotate_each names ttl no_restarts certs env t ≡ (ok (some flags), u)
      → Marked names flags (renewals env u)
  rotate_each-marks certs flags t u fresh worked =
      flags_of (rotate_each names ttl no_restarts certs env t) flags u
        (rotate_each-Flagged certs no_restarts t
          (subst (λ l. Marked names no_restarts l) (sym fresh) (refl, refl, refl)))
        worked
