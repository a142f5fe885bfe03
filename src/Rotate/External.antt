-- ===== src/Rotate/External.antt =====
-- pkg/rotate/rotate.go: a certificate that the node cannot renew.
use ekco.Prelude.{
  ℕ, ◌≤◌, String, ◌≡◌, refl, inl, inr, Bool, true, false, some, List, [], ◌∷◌, ◌++◌, arith, ltb,
  Bool-cases,
}
use ekco.Errors.{Result, ok, err}
use ekco.Kube.{Call, Trace, Env}
use ekco.Rotate.{rotate_certs, CertNames, RestartFlags, no_restarts, mark, rotate_each}

module _ (names : CertNames) (ttl : ℕ) (env : Env) where
  abbrev Goes : List String → List String → Type 0
  Goes before more =
      (flags reached : RestartFlags) (t v : Trace)
      → rotate_each names ttl flags before env t ≡ (ok (some reached), v)
      → rotate_each names ttl flags (before ++ more) env t
        ≡ rotate_each names ttl reached more env v

  one_more :
      (name : String) (before more : List String) (flags reached : RestartFlags) (t v : Trace)
      (there : Result Bool) (lasts : Result ℕ) (renewed : Result Bool)
      → Goes before more
      → env.answer (Call.certificate_exists name) t ≡ there
      → env.answer (Call.residual_time name) (Call.certificate_exists name ∷ t) ≡ lasts
      → env.answer
          (Call.renew_using_local_ca name)
          (Call.residual_time name ∷ Call.certificate_exists name ∷ t)
        ≡ renewed
      → rotate_each names ttl flags (name ∷ before) env t ≡ (ok (some reached), v)
      → rotate_each names ttl flags (name ∷ (before ++ more)) env t
        ≡ rotate_each names ttl reached more env v
  unfolding rotate_each
  one_more name before more flags reached t v (err e) lasts renewed goes a b c worked =
      grind (arith, a, worked)
  one_more name before more flags reached t v (ok false) lasts renewed goes a b c worked =
      let rest = goes flags reached (Call.certificate_exists name ∷ t) v in
      grind (arith, a, worked, rest)
  one_more name before more flags reached t v (ok true) (err e) renewed goes a b c worked =
      grind (arith, a, b, worked)
  one_more name before more flags reached t v (ok true) (ok left) (err e) goes a b c worked =
      let kept =
        goes flags reached (Call.residual_time name ∷ Call.certificate_exists name ∷ t) v in
      elim (Bool-cases (ltb ttl left)) [
        | inl late ↦ grind (arith, a, b, late, worked, kept)
        | inr due ↦ grind (arith, a, b, c, due, worked)
      ]
  one_more name before more flags reached t v (ok true) (ok left) (ok false) goes a b c worked =
      let kept =
        goes flags reached (Call.residual_time name ∷ Call.certificate_exists name ∷ t) v in
      elim (Bool-cases (ltb ttl left)) [
        | inl late ↦ grind (arith, a, b, late, worked, kept)
        | inr due ↦ grind (arith, a, b, c, due, worked)
      ]
  one_more name before more flags reached t v (ok true) (ok left) (ok true) goes a b c worked =
      let kept =
        goes flags reached (Call.residual_time name ∷ Call.certificate_exists name ∷ t) v in
      let marked =
        goes (mark names name flags) reached
          (Call.renew_using_local_ca name
            ∷ Call.residual_time name
            ∷ Call.certificate_exists name
            ∷ t)
          v in
      elim (Bool-cases (ltb ttl left)) [
        | inl late ↦ grind (arith, a, b, late, worked, kept)
        | inr due ↦ grind (arith, a, b, c, due, worked, marked)
      ]

  -- The loop over a list that goes on is the loop over its beginning, and then over the rest.
  rotate_each-append : (before more : List String) → Goes before more
  unfolding rotate_each
  rotate_each-append [] more flags reached t v worked = grind (arith, worked)
  rotate_each-append (name ∷ before) more flags reached t v worked =
      one_more name before more flags reached t v (env.answer (Call.certificate_exists name) t)
        (env.answer (Call.residual_time name) (Call.certificate_exists name ∷ t))
        (env.answer (Call.renew_using_local_ca name)
          (Call.residual_time name ∷ Call.certificate_exists name ∷ t))
        (rotate_each-append before more) refl refl refl worked

  -- If, after certificates that went well, a certificate of the node is there and due and the local CA
  -- cannot renew it: the whole rotation returns no error, calls nothing after that, so that it restarts no
  -- component, whatever was renewed before, and does not look at the certificates that follow.
  pub rotate_certs-external :
      (before more : List String) (name : String) (left : ℕ) (flags : RestartFlags) (t v : Trace)
      → env.answer Call.renewal_certificates t ≡ ok (before ++ name ∷ more)
      → rotate_each names ttl no_restarts before env (Call.renewal_certificates ∷ t)
        ≡ (ok (some flags), v)
      → env.answer (Call.certificate_exists name) v ≡ ok true
      → env.answer (Call.residual_time name) (Call.certificate_exists name ∷ v) ≡ ok left
      → left ≤ ttl
      → env.answer
          (Call.renew_using_local_ca name)
          (Call.residual_time name ∷ Call.certificate_exists name ∷ v)
        ≡ ok false
      → rotate_certs names ttl env t ≡ (
        ok tt,
        Call.renew_using_local_ca name ∷ Call.residual_time name ∷ Call.certificate_exists name ∷ v,
      )
  unfolding rotate_certs rotate_each
  rotate_certs-external before more name left flags t v listed well there lasts due external =
      let goes_on =
        rotate_each-append before (name ∷ more) no_restarts flags (Call.renewal_certificates ∷ t) v
          well in
      grind (arith, listed, goes_on, there, lasts, due, external)
