-- ===== src/Tests/Loop.antt =====
-- The reconcile loop and its parts.
use ekco.Prelude.{◌≡◌, refl, ◌↔◌, false, none, [], ◌∷◌, map, All}
use ekco.Errors.{Result, failure, ok, err}
use ekco.Kube.{Csr, Call, minio, kotsadm, Env}
use ekco.Ekcoops.Overrides.{initial, paused, pausing, resuming, after_steps, paused-after_steps}
use ekco.Ekcoops.Operator.{rotate_certs, approve_all, locked_minio, reconcile_minio}
use ekco.Ekcoops.Operator.Csrs.{approvals, after_approval, approve_all_lem}
use ekco.Cluster.Certs.{check_rotate_certs_due}
use ekco.Ekcoops.Operator.Rotation.{rotate_certs-all}
use ekco.Ekcoops.Operator.Minio.{reconcile_minio-lock}
use ekco.Ekcoops.Poll.{tick, poll_from}
use ekco.Ekcoops.Poll.Steps.{Run, poll_from-Run}
use ekco.Tests.Env.{nothing, env_with}
use ekco.Tests.Settings.{settings, no_services}

abbrev env : Env
env = env_with none nothing

abbrev down : Env
down = env_with none (record nothing { nodes = err (failure "unreachable") })

abbrev request : Csr
request = record {
  name = "csr";
  signer_name = "kubernetes.io/kubelet-serving";
  conditions = [];
  certificate = [];
}

abbrev signed : Csr
signed = record {
  name = "done";
  signer_name = "kubernetes.io/kubelet-serving";
  conditions = [];
  certificate = 1 ∷ [];
}

approve_all_example :
    All (λ csr. csr.name ≡ "csr") (approvals (approve_all (request ∷ signed ∷ []) env []).1)
    × (approve_all (map after_approval (request ∷ signed ∷ [])) env [] ≡ (ok tt, []))
approve_all_example =
    approve_all_lem (λ csr. csr.name ≡ "csr") env (request ∷ signed ∷ []) []
      ((λ h. refl), ((λ h. cc), tt)) tt

-- The work fails, and the lock is released.
reconcile_minio-lock_example : reconcile_minio settings no_services env [] ≡ (
  (locked_minio settings no_services env (Call.try_lock_minio ∷ Call.read_paused minio ∷ [])).0,
  Call.unlock_minio
      ∷ (locked_minio settings no_services env
          (Call.try_lock_minio ∷ Call.read_paused minio ∷ [])).1,
)
reconcile_minio-lock_example = reconcile_minio-lock settings no_services env []

poll_from-Run_example :
    Run settings no_services env 120
      (tick ∷ tick ∷ [])
      []
      (poll_from settings no_services 120 (tick ∷ tick ∷ []) env [])
poll_from-Run_example = poll_from-Run settings no_services env 120 (tick ∷ tick ∷ []) []

paused-after_steps_example :
    paused minio (after_steps (pausing minio ∷ pausing kotsadm ∷ resuming minio ∷ []) initial)
    ≡ false
paused-after_steps_example =
    paused-after_steps minio (pausing minio ∷ pausing kotsadm ∷ resuming minio ∷ []) initial

-- The first check makes the ConfigMap, and every step works.
rotate_certs-all_example :
    ((rotate_certs no_services false env []).1
      ≡ (check_rotate_certs_due no_services.controller false env []).1)
    × (((rotate_certs no_services false env []).0 ≡ ok tt) ↔ (
        (◌≡◌ {A = Result (Unit {0})} (ok tt) (ok tt))
        × (◌≡◌ {A = Result (Unit {0})} (ok tt) (ok tt))
        × (◌≡◌ {A = Result (Unit {0})} (ok tt) (ok tt))
        × (◌≡◌ {A = Result (Unit {0})} (ok tt) (ok tt))
        × (◌≡◌ {A = Result (Unit {0})} (ok tt) (ok tt))))
unfolding check_rotate_certs_due
rotate_certs-all_example =
    rotate_certs-all no_services false env []
      (check_rotate_certs_due no_services.controller false env []).1 refl
