-- ===== src/Util/Restart/Waits.antt =====
-- pkg/util/await_health.go: how the loop that waits for a workload ends.
use ekco.Prelude.{
  ℕ, zero, suc, ◌≤◌, String, ◌≡◌, refl, ◌↔◌, ◌⊎◌, inl, inr, Bool, true, false, ◌∷◌, arith,
}
use ekco.Errors.{Result, ok, err}
use ekco.Kube.{WorkloadStatus, Workload, Call, Trace, Action, Env}
use ekco.Util.Restart.{await, check_deployment, check_stateful_set}

-- The check fails a number of times, the state moving on, and then holds.
pub data Ready (check : Action Bool) (env : Env) : ℕ → Trace → Trace → Type 0 where
  at_once : {t u : Trace} → check env t ≡ (ok true, u) → Ready check env 0 t u
  later :
      {k : ℕ} {t v u : Trace}
      → check env t ≡ (ok false, v)
      → Ready check env k v u
      → Ready check env (suc k) t u

module _ (check : Action Bool) (env : Env) where
  in_time :
      (k waits : ℕ) (t u : Trace)
      → Ready check env k t u
      → k ≤ waits
      → await check waits env t ≡ (ok tt, u)
  unfolding await
  in_time zero zero t u (at_once now) few = grind (arith, now)
  in_time zero (suc waits) t u (at_once now) few = grind (arith, now)
  in_time (suc k) zero t u (later not_yet rest) few = ground arith
  in_time (suc k) (suc waits) t u (later {v = v} not_yet rest) few =
      let tail = in_time k waits v u rest (omega arith) in grind (arith, not_yet, tail)

  last_check :
      (r : Result Bool) (t v u : Trace)
      → check env t ≡ (r, v)
      → await check 0 env t ≡ (ok tt, u)
      → check env t ≡ (ok true, u)
  unfolding await
  last_check (ok true) t v u now worked = grind (arith, now, worked)
  last_check (ok false) t v u now worked = grind (arith, now, worked)
  last_check (err e) t v u now worked = grind (arith, now, worked)

  one_check :
      (waits : ℕ) (r : Result Bool) (t v u : Trace)
      → check env t ≡ (r, v)
      → await check (suc waits) env t ≡ (ok tt, u)
      → (check env t ≡ (ok true, u))
        ⊎ ((check env t ≡ (ok false, v)) × (await check waits env v ≡ (ok tt, u)))
  unfolding await
  one_check waits (ok true) t v u now worked = inl (grind (arith, now, worked))
  one_check waits (ok false) t v u now worked = inr (now, grind (arith, now, worked))
  one_check waits (err e) t v u now worked = inl (grind (arith, now, worked))

  from_wait :
      (waits : ℕ) (t u : Trace)
      → await check waits env t ≡ (ok tt, u)
      → (k : ℕ) × (k ≤ waits) × Ready check env k t u
  from_wait zero t u worked =
      (0, omega arith, at_once (last_check (check env t).0 t (check env t).1 u refl worked))
  from_wait (suc waits) t u worked =
      elim (one_check waits (check env t).0 t (check env t).1 u refl worked) [
        | inl now ↦ (0, omega arith, at_once now)
        | inr (not_yet, rest) ↦
            let (k, few, ready) = from_wait waits _ u rest in
            (suc k, omega arith, later not_yet ready)
      ]

  -- The loop over `waits` waits ends without an error exactly if the check, after it failed at most
  -- that many times in a row without an error of its own, holds, and then it ends in the state of
  -- that check.
  pub await-Ready :
      (waits : ℕ) (t u : Trace)
      → (await check waits env t ≡ (ok tt, u)) ↔ ((k : ℕ) × (k ≤ waits) × Ready check env k t u)
  await-Ready waits t u = (from_wait waits t u, λ (k, few, ready). in_time k waits t u ready few)

-- The states in which a workload has settled.
abbrev pub SettledDeployment : WorkloadStatus → Type 0
SettledDeployment s =
    (s.ready_replicas ≡ s.replicas)
    × (s.available_replicas ≡ s.replicas)
    × (s.unavailable_replicas ≡ 0)
    × (s.updated_replicas ≡ s.replicas)

abbrev pub SettledStatefulSet : WorkloadStatus → Type 0
SettledStatefulSet s =
    (s.ready_replicas ≡ s.replicas)
    × (s.available_replicas ≡ s.replicas)
    × (s.updated_replicas ≡ s.replicas)

-- A wait that ended well ended with a check that held.
Ready-last :
    {check : Action Bool} {env : Env} {k : ℕ} {t u : Trace}
    → Ready check env k t u
    → (v : Trace) × (check env v ≡ (ok true, u))
Ready-last {t = t} (at_once now) = (t, now)
Ready-last (later not_yet rest) = Ready-last rest

module _ (ns name : String) (env : Env) where
  deployment-settled :
      (r : Result Workload) (v u : Trace)
      → env.answer (Call.get_deployment ns name) v ≡ r
      → check_deployment ns name env v ≡ (ok true, u)
      → (w : Workload) × (u ≡ Call.get_deployment ns name ∷ v)
        × (r ≡ ok w)
        × SettledDeployment w.status
  deployment-settled (err e) v u read worked = grind (arith, read, worked)
  deployment-settled (ok w) v u read worked = (
    w,
    grind (arith, read, worked),
    refl,
    (
      grind (arith, read, worked),
      grind (arith, read, worked),
      grind (arith, read, worked),
      grind (arith, read, worked),
    ),
  )

  stateful_set-settled :
      (r : Result Workload) (v u : Trace)
      → env.answer (Call.get_stateful_set ns name) v ≡ r
      → check_stateful_set ns name env v ≡ (ok true, u)
      → (w : Workload) × (u ≡ Call.get_stateful_set ns name ∷ v)
        × (r ≡ ok w)
        × SettledStatefulSet w.status
  stateful_set-settled (err e) v u read worked = grind (arith, read, worked)
  stateful_set-settled (ok w) v u read worked = (
    w,
    grind (arith, read, worked),
    refl,
    (grind (arith, read, worked), grind (arith, read, worked), grind (arith, read, worked)),
  )

  -- If the wait for a Deployment, or for a StatefulSet, ends without an error, then it ends right after a
  -- reading of that workload in which all replicas are ready, available and updated, and, of a
  -- Deployment, none is unavailable; and it waited at most as often as it could.
  pub await-Settled :
      (waits : ℕ) (t u : Trace)
      → (await (check_deployment ns name) waits env t ≡ (ok tt, u)
          → (k : ℕ) × (k ≤ waits)
            × Ready (check_deployment ns name) env k t u
            × ((v : Trace) × (w : Workload) × (u ≡ Call.get_deployment ns name ∷ v)
                × (env.answer (Call.get_deployment ns name) v ≡ ok w)
                × SettledDeployment w.status))
        × (await (check_stateful_set ns name) waits env t ≡ (ok tt, u)
            → (k : ℕ) × (k ≤ waits)
              × Ready (check_stateful_set ns name) env k t u
              × ((v : Trace) × (w : Workload) × (u ≡ Call.get_stateful_set ns name ∷ v)
                  × (env.answer (Call.get_stateful_set ns name) v ≡ ok w)
                  × SettledStatefulSet w.status))
  await-Settled waits t u = (
    λ worked.
        let (k, few, ready) = (await-Ready (check_deployment ns name) env waits t u).0 worked in
        let (v, last) = Ready-last ready in
        let (w, ends, read, settled) =
          deployment-settled (env.answer (Call.get_deployment ns name) v) v u refl last in
        (k, few, ready, (v, w, ends, read, settled)),
    λ worked.
        let (k, few, ready) = (await-Ready (check_stateful_set ns name) env waits t u).0 worked in
        let (v, last) = Ready-last ready in
        let (w, ends, read, settled) =
          stateful_set-settled (env.answer (Call.get_stateful_set ns name) v) v u refl last in
        (k, few, ready, (v, w, ends, read, settled)),
  )
