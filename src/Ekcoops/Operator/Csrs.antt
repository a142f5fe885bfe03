-- ===== src/Ekcoops/Operator/Csrs.antt =====
-- Which certificate signing requests are approved.
use ekco.Prelude.{
  String, ◌≡◌, refl, inl, inr, true, false, List, [], ◌∷◌, ◌++◌, map, arith, eq_iff, if◌then◌else◌,
  Bool-cases, is_empty, All,
}
use ekco.Errors.{ok}
use ekco.Kube.{Result-cases, Csr, Call, Trace, Env}
use ekco.Ekcoops.Operator.{approved, needs_approval, approve_all}

-- The approvals that were asked for.
abbrev pub add_approval : Call → List Csr → List Csr
add_approval (Call.update_approval csr) csrs = csr ∷ csrs
add_approval _ csrs = csrs

abbrev pub approvals : Trace → List Csr
approvals [] = []
approvals (c ∷ t) = add_approval c (approvals t)

abbrev pub after_approval : Csr → Csr
after_approval csr = if needs_approval csr then approved csr else csr

not_empty : (reasons : List String) → is_empty (reasons ++ "ekcoApprove" ∷ []) ≡ false
not_empty [] = refl
not_empty (r ∷ reasons) = refl

-- A kubelet's serving request that nobody has decided or signed.
abbrev pub IsPending : Csr → Type 0
IsPending csr =
    (csr.signer_name ≡ "kubernetes.io/kubelet-serving")
    × (csr.conditions ≡ [])
    × (csr.certificate ≡ [])

needs_approval-IsPending : (csr : Csr) → needs_approval csr ≡ true → IsPending csr
needs_approval-IsPending csr h =
    ground (arith, eq_iff csr.signer_name "kubernetes.io/kubelet-serving")

not_again : (csr : Csr) → needs_approval (approved csr) ≡ false
not_again csr = ground (arith, not_empty csr.conditions)

approve_all-again :
    (env : Env) (csrs : List Csr) (t : Trace)
    → approve_all (map after_approval csrs) env t ≡ (ok tt, t)
unfolding approve_all
approve_all-again env [] t = refl
approve_all-again env (csr ∷ csrs) t = elim (Bool-cases (needs_approval csr)) [
  | inl pending ↦ rw (pending, not_again csr) (approve_all-again env csrs t)
  | inr settled ↦ rw (settled, settled) (approve_all-again env csrs t)
]

approve_all-keeps :
    (P : Csr → Type 0) (env : Env) (csrs : List Csr) (t : Trace)
    → All (λ csr. IsPending csr → P (approved csr)) csrs
    → All P (approvals t)
    → All P (approvals (approve_all csrs env t).1)
unfolding approve_all
approve_all-keeps P env [] t may h = h
approve_all-keeps P env (csr ∷ csrs) t may h = elim (Bool-cases (needs_approval csr)) [
  | inr settled ↦ rw settled (approve_all-keeps P env csrs t may.1 h)
  | inl pending ↦
      let call = Call.update_approval (approved csr) in
      elim (Result-cases (env.answer call t)) [
        | inl accepted ↦
            rw (pending, accepted)
              (approve_all-keeps P env csrs (call ∷ t) may.1
                (may.0 (needs_approval-IsPending csr pending), h))
        | inr (e, refused) ↦ rw (pending, refused) (may.0 (needs_approval-IsPending csr pending), h)
      ]
]

-- Whatever the server answers, only kubelet serving requests among the listed ones that are neither
-- decided nor signed are approved; and once the listed requests stand as these approvals leave them, a
-- further pass approves nothing.
pub approve_all_lem :
    (P : Csr → Type 0) (env : Env) (csrs : List Csr) (t : Trace)
    → All (λ csr. IsPending csr → P (approved csr)) csrs
    → All P (approvals t)
    → All P (approvals (approve_all csrs env t).1)
      × (approve_all (map after_approval csrs) env t ≡ (ok tt, t))
approve_all_lem P env csrs t may h =
    (approve_all-keeps P env csrs t may h, approve_all-again env csrs t)
