-- ===== src/Kube/Laws.antt =====
-- How a block goes on after a step that worked, that it stops at one that failed, and what a block that
-- worked says of its steps.
use ekco.Prelude.{String, ◌≡◌, refl, sym, ap, ◌∙◌, ◌⊎◌, inl, inr, arith}
use ekco.Errors.{Error, Result, ok, err}
use ekco.Kube.Actions.{Action, Trace, Env, wrap, plain, ◌>>=◌}

pub Result-cases : (r : Result (Unit {0})) → (r ≡ ok tt) ⊎ ((e : Error) × (r ≡ err e))
Result-cases (ok tt) = inl refl
Result-cases (err e) = inr (e, refl)

pub run-cases {ℓ} :
    {A : Type ℓ} (r : Result A × Trace)
    → ((a : A) × (r ≡ (ok a, r.1))) ⊎ ((e : Error) × (r.0 ≡ err e))
run-cases (ok a, u) = inl (a, refl)
run-cases (err e, u) = inr (e, refl)

module _ {ℓ κ} {A : Type ℓ} {B : Type κ} (m : Action A) (f : A → Action B) (env : Env)
    (t : Trace) where
  pub bind-ok : (a : A) → (m env t).0 ≡ ok a → (m >>= f) env t ≡ f a env (m env t).1
  bind-ok a worked = rw (worked, ◌>>=◌)

  pub bind-err : (e : Error) → (m env t).0 ≡ err e → (m >>= f) env t ≡ (err e, (m env t).1)
  bind-err e failed = rw (failed, ◌>>=◌)

-- A block that worked: its first step worked, and the rest goes on from where that left the trace.
pub bind-inv {ℓ κ} :
    {A : Type ℓ} {B : Type κ} (m : Action A) (f : A → Action B) (env : Env) (t u : Trace) (b : B)
    → (m >>= f) env t ≡ (ok b, u)
    → (a : A) × (m env t ≡ (ok a, (m env t).1)) × (f a env (m env t).1 ≡ (ok b, u))
bind-inv m f env t u b worked = elim (run-cases (m env t)) [
  | inl (a, first) ↦ (a, first, sym (bind-ok m f env t a (ap (λ r. r.0) first)) ∙ worked)
  | inr (e, broken) ↦ grind (arith, bind-err m f env t e broken, worked)
]

-- A wrapped step that worked is the step.
pub wrap-inv {ℓ} :
    {A : Type ℓ} (note : String) (m : Action A) (env : Env) (t u : Trace) (a : A)
    → wrap note m env t ≡ (ok a, u)
    → m env t ≡ (ok a, u)
wrap-inv note m env t u a worked = elim (run-cases (m env t)) [
  | inl (b, first) ↦ grind (arith, first, worked)
  | inr (e, broken) ↦ grind (arith, broken, worked)
]

pub plain-inv {ℓ} :
    {A : Type ℓ} (note : String) (m : Action A) (env : Env) (t u : Trace) (a : A)
    → plain note m env t ≡ (ok a, u)
    → m env t ≡ (ok a, u)
plain-inv note m env t u a worked = elim (run-cases (m env t)) [
  | inl (b, first) ↦ grind (arith, first, worked)
  | inr (e, broken) ↦ grind (arith, broken, worked)
]
