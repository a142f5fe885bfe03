-- ===== src/Kube/Readings.antt =====
-- A reading of the trace that an action does not change: how a block keeps what its steps keep.
use ekco.Prelude.{◌≡◌, refl, ◌∙◌, Bool, true, false, if◌then◌else◌}
use ekco.Errors.{Result, ok, err}
use ekco.Kube.Actions.{Trace, Action, Env, lift, when, ◌>>=◌}

abbrev pub Keeps {ℓ κ} : {A : Type ℓ} {X : Type κ} → (Trace → X) → Action A → Type κ
Keeps f m = (env : Env) (t : Trace) → f (m env t).1 ≡ f t

module _ {ℓ κ μ} {X : Type μ} (f : Trace → X) {A : Type ℓ} {B : Type κ} (g : A → Action B)
    (next : (a : A) → Keeps f (g a)) where
  pub after-Keeps :
      (r : Result A) (env : Env) (t u : Trace) → f u ≡ f t → f ((lift r >>= g) env u).1 ≡ f t
  after-Keeps (ok a) env t u same = next a env u ∙ same
  after-Keeps (err e) env t u same = same

  pub then-Keeps : (m : Action A) → Keeps f m → Keeps f (m >>= g)
  then-Keeps m first env t = after-Keeps (m env t).0 env t (m env t).1 (first env t)

pub when-Keeps {κ} :
    {X : Type κ} (f : Trace → X) (b : Bool) (m : Action (Unit {0})) → Keeps f m → Keeps f (when b m)
when-Keeps f true m keeps env t = keeps env t
when-Keeps f false m keeps env t = refl

pub if-Keeps {ℓ κ} :
    {A : Type ℓ} {X : Type κ} (f : Trace → X) (b : Bool) (m n : Action A)
    → Keeps f m
    → Keeps f n
    → Keeps f (if b then m else n)
if-Keeps f true m n first second env t = first env t
if-Keeps f false m n first second env t = second env t
