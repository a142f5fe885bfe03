-- ===== src/Objectstore/Keeps/Consumers.antt =====
-- A restart and the update of the consumers keep what copying does.
use ekco.Prelude.{
  ℕ, zero, suc, String, ◌≡◌, refl, ◌∙◌, Bool, true, false, not, Option, none, some, List, [], ◌∷◌,
  arith,
}
use ekco.Errors.{Result, failure, ok, err}
use ekco.Kube.{
  Keeps, then-Keeps, when-Keeps, Workload, ConfigMap, Secret, BackupLocation, BackupRepository,
  Call, Trace, Action, raise, send, when,
}
use ekco.Objectstore.Keeps.{ordinary}
use ekco.Util.Restart.{
  await, check_deployment, check_stateful_set, check_daemon_set, restart_deployment,
  restart_stateful_set, restart_daemon_set, restart_found,
}
use ekco.Objectstore.Consumers.{
  Move, kotsadm_found, update_kotsadm_object_store, registry_found, update_registry_object_store,
  update_repositories, location_found, credentials_found, restart_velero,
  update_velero_object_store, update_consumers,
}

module _ {X : Type 0} (f : Trace → X)
    (blind : (c : Call) (t : Trace) → ordinary c ≡ true → f (c ∷ t) ≡ f t) where
  await-Keeps : (check : Action Bool) → Keeps f check → (waits : ℕ) → Keeps f (await check waits)
  unfolding await
  await-Keeps check keeps zero =
      then-Keeps f (λ ready. when (not ready) (raise (failure "context done")))
        (λ ready. when-Keeps f (not ready) (raise (failure "context done")) (λ env t. refl)) check
        keeps
  await-Keeps check keeps (suc waits) =
      then-Keeps f (λ ready. when (not ready) (await check waits))
        (λ ready. when-Keeps f (not ready) (await check waits) (await-Keeps check keeps waits))
        check keeps

  restart_found-Keeps :
      (update : Workload → Action (Result (Unit {0}))) (check : Action Bool)
      → ((w : Workload) → Keeps f (update w))
      → Keeps f check
      → (r : Result Workload) → Keeps f (restart_found update check r)
  restart_found-Keeps update check updates checks (ok w) env t =
      grind (arith, blind, updates, await-Keeps check checks)
  restart_found-Keeps update check updates checks (err e) env t = ground arith

  restart_deployment-Keeps : (ns name : String) → Keeps f (restart_deployment ns name)
  unfolding restart_deployment
  restart_deployment-Keeps ns name env t =
      restart_found-Keeps (λ w. send (Call.update_deployment ns w)) (check_deployment ns name)
        (λ w env t. blind _ t refl) (λ env t. grind (arith, blind))
        (env.answer (Call.get_deployment ns name) t) env (Call.get_deployment ns name ∷ t)
      ∙ blind _ t refl

  restart_stateful_set-Keeps : (ns name : String) → Keeps f (restart_stateful_set ns name)
  unfolding restart_stateful_set
  restart_stateful_set-Keeps ns name env t =
      restart_found-Keeps (λ w. send (Call.update_stateful_set ns w)) (check_stateful_set ns name)
        (λ w env t. blind _ t refl) (λ env t. grind (arith, blind))
        (env.answer (Call.get_stateful_set ns name) t) env (Call.get_stateful_set ns name ∷ t)
      ∙ blind _ t refl

  restart_daemon_set-Keeps : (ns name : String) → Keeps f (restart_daemon_set ns name)
  unfolding restart_daemon_set
  restart_daemon_set-Keeps ns name env t =
      restart_found-Keeps (λ w. send (Call.update_daemon_set ns w)) (check_daemon_set ns name)
        (λ w env t. blind _ t refl) (λ env t. grind (arith, blind))
        (env.answer (Call.get_daemon_set ns name) t) env (Call.get_daemon_set ns name ∷ t)
      ∙ blind _ t refl

  kotsadm_found-Keeps : (move : Move) (found : Option Secret) → Keeps f (kotsadm_found move found)
  unfolding kotsadm_found
  kotsadm_found-Keeps move none env t = refl
  kotsadm_found-Keeps move (some s) env t =
      grind (arith, blind, restart_deployment-Keeps, restart_stateful_set-Keeps)

  update_kotsadm_object_store-Keeps : (move : Move) → Keeps f (update_kotsadm_object_store move)
  unfolding update_kotsadm_object_store
  update_kotsadm_object_store-Keeps move env t = grind (arith, blind, kotsadm_found-Keeps)

  registry_found-Keeps :
      (move : Move) (config : Option ConfigMap) (s : Option Secret)
      → Keeps f (registry_found move config s)
  unfolding registry_found
  registry_found-Keeps move none s env t = refl
  registry_found-Keeps move (some cm) none env t = refl
  registry_found-Keeps move (some cm) (some s) env t =
      grind (arith, blind, restart_deployment-Keeps)

  update_registry_object_store-Keeps : (move : Move) → Keeps f (update_registry_object_store move)
  unfolding update_registry_object_store
  update_registry_object_store-Keeps move env t = grind (arith, blind, registry_found-Keeps)

  update_repositories-Keeps :
      (move : Move) (rs : List BackupRepository) → Keeps f (update_repositories move rs)
  unfolding update_repositories
  update_repositories-Keeps move [] env t = refl
  update_repositories-Keeps move (r ∷ rs) env t =
      grind (arith, blind, update_repositories-Keeps move rs)

  location_found-Keeps :
      (move : Move) (found : Option BackupLocation) → Keeps f (location_found move found)
  unfolding location_found
  location_found-Keeps move none env t = refl
  location_found-Keeps move (some l) env t = grind (arith, blind, update_repositories-Keeps)

  credentials_found-Keeps :
      (move : Move) (found : Option Secret) → Keeps f (credentials_found move found)
  unfolding credentials_found
  credentials_found-Keeps move none env t = refl
  credentials_found-Keeps move (some s) env t = grind (arith, blind)

  restart_velero-Keeps : (changed : Bool) → Keeps f (restart_velero changed)
  unfolding restart_velero
  restart_velero-Keeps false env t = refl
  restart_velero-Keeps true env t =
      grind (arith, restart_daemon_set-Keeps, restart_deployment-Keeps)

  update_velero_object_store-Keeps : (move : Move) → Keeps f (update_velero_object_store move)
  unfolding update_velero_object_store
  update_velero_object_store-Keeps move env t =
      grind (arith, blind, location_found-Keeps, credentials_found-Keeps, restart_velero-Keeps)

  pub update_consumers-Keeps : (move : Move) → Keeps f (update_consumers move)
  unfolding update_consumers
  update_consumers-Keeps move env t = grind (
    arith, update_registry_object_store-Keeps, update_velero_object_store-Keeps,
    update_kotsadm_object_store-Keeps,
  )
