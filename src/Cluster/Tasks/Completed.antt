-- ===== src/Cluster/Tasks/Completed.antt =====
-- pkg/cluster/certs.go: a task that worked has a pod that succeeded.
use ekco.Prelude.{
  ℕ, zero, suc, String, ◌≡◌, refl, inl, inr, true, false, ◌∷◌, arith, ◌==◌, Bool-cases,
}
use ekco.Errors.{Result, ok, err}
use ekco.Kube.{TaskPod, Call, Trace, Env}
use ekco.Cluster.Tasks.{phase_of, poll, poll_for_pod_completed, run_task}

module _ (ns name : String) (env : Env) where
  -- The trace once the pod was read that many times.
  abbrev pub after_reads : ℕ → Trace → Trace
  after_reads zero t = t
  after_reads (suc k) t = after_reads k (Call.get_pod ns name ∷ t)

  -- The pod was read over and over, and at last it had succeeded.
  abbrev pub Succeeded : Trace → Type 0
  Succeeded t =
      (k : ℕ) × ((phase_of (env.answer (Call.get_pod ns name) (after_reads k t)) == "Succeeded")
        ≡ true)

  poll-next :
      (waits : ℕ) (t : Trace)
      → (phase_of (env.answer (Call.get_pod ns name) t) == "Succeeded") ≡ false
      → (poll ns name (suc waits) env t).0 ≡ ok tt
      → (poll ns name waits env (Call.get_pod ns name ∷ t)).0 ≡ ok tt
  unfolding poll
  poll-next waits t not_yet worked =
      elim (Bool-cases (phase_of (env.answer (Call.get_pod ns name) t) == "Failed")) [
        | inl broken ↦ grind (arith, not_yet, broken, worked)
        | inr going ↦ grind (arith, not_yet, going, worked)
      ]

  poll-Succeeded : (waits : ℕ) (t : Trace) → (poll ns name waits env t).0 ≡ ok tt → Succeeded t
  unfolding poll
  poll-Succeeded zero t worked = ground arith
  poll-Succeeded (suc waits) t worked =
      elim (Bool-cases (phase_of (env.answer (Call.get_pod ns name) t) == "Succeeded")) [
        | inl now ↦ (0, now)
        | inr not_yet ↦
            let (k, done) =
              poll-Succeeded waits (Call.get_pod ns name ∷ t) (poll-next waits t not_yet worked) in
            (suc k, done)
      ]

-- The pod was created as the next call of the trace, and after that it succeeded.
abbrev pub Completed : TaskPod → Env → Trace → Type 0
Completed pod env t =
    (name : String) × (env.answer (Call.create_task_pod pod) t ≡ ok name)
    × Succeeded pod.namespace name env (Call.waits_left ∷ Call.create_task_pod pod ∷ t)

module _ (note : String) (pod : TaskPod) (env : Env) (t : Trace) where
  created-Completed :
      (r : Result String)
      → env.answer (Call.create_task_pod pod) t ≡ r
      → (run_task note pod env t).0 ≡ ok tt
      → Completed pod env t
  unfolding run_task poll_for_pod_completed
  created-Completed (err e) made worked = grind (arith, made, worked)
  created-Completed (ok name) made worked =
      let u = Call.create_task_pod pod ∷ t in
      (
        name,
        made,
        poll-Succeeded pod.namespace name env (env.answer Call.waits_left u) (Call.waits_left ∷ u)
            (grind (arith, made, worked)),
      )

  pub run_task-Completed : (run_task note pod env t).0 ≡ ok tt → Completed pod env t
  run_task-Completed worked =
      created-Completed (env.answer (Call.create_task_pod pod) t) refl worked
