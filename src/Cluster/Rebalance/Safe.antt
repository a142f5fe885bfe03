-- ===== src/Cluster/Rebalance/Safe.antt =====
-- pkg/cluster/minio.go: what one call of `MaybeRebalanceMinioServers` can take away.
pub mod Groups
pub mod Whole
use mathlib.Core.Path.{subst}
use mathlib.Core.List.{Memᴰ}
use mathlib.Core.List.Memᴰ.{head, tail}
use ekco.Prelude.{◌≡◌, refl, sym, Bool, true, false, List, [], ◌∷◌, ◌==◌, if◌then◌else◌}
use ekco.Errors.{Result, failure, ok, err}
use ekco.Kube.{Keeps, Pod, Call, Trace, Action, raise, lift, send, ◌>>=◌, ◌>>◌, expect, Env}
use ekco.Cluster.Minio.{get_minio_scale, ha_minio_healthy, is_status_ok, health_url}
use ekco.Cluster.Rebalance.{
  reschedule_one_pod, is_stuck, find_stuck, safe_to_reschedule, is_safe, move_one, rebalance,
  none_stuck, when_scaled, maybe_rebalance_minio_servers, candidate, loop, fewer_than, last_claim,
  group_pods, add_pod,
}

-- The pods and claims that were deleted, newest first.
abbrev is_loss : Call → Bool
is_loss (Call.delete_pod ns n) = true
is_loss (Call.delete_claim ns n) = true
is_loss _ = false

abbrev pub losses : Trace → List Call
losses [] = []
losses (c ∷ t) = let rest = losses t in if is_loss c then c ∷ rest else rest

-- Nothing more was deleted, or the claim of one pod, or its claim and then the pod itself.
pub data OneMove (P : Pod → Type 0) (before : List Call) : List Call → Type 0 where
  no_move : OneMove P before before
  claim_only :
      (pod : Pod)
      → P pod
      → OneMove P before (Call.delete_claim pod.namespace (last_claim pod.claim_names) ∷ before)
  claim_and_pod :
      (pod : Pod)
      → P pod
      → OneMove P before (
          Call.delete_pod pod.namespace pod.name
          ∷ Call.delete_claim pod.namespace (last_claim pod.claim_names)
          ∷ before)

abbrev pub Moves {ℓ} : (Pod → Type 0) → {A : Type ℓ} → Action A → Type 0
Moves P m = (env : Env) (t : Trace) → OneMove P (losses t) (losses (m env t).1)

module _ (P : Pod → Type 0) where
  pub Moves-nothing {ℓ} : {A : Type ℓ} (m : Action A) → Keeps losses m → Moves P m
  Moves-nothing m keeps env t = subst (λ l. OneMove P (losses t) l) (sym (keeps env t)) no_move

  -- A step that deletes nothing, and then one that moves a pod at most.
  module _ {ℓ κ} {A : Type ℓ} {B : Type κ} (f : A → Action B)
      (moves : (a : A) → Moves P (f a)) where
    pub after-Moves :
        (r : Result A) (env : Env) (t u : Trace)
        → losses u ≡ losses t
        → OneMove P (losses t) (losses ((lift r >>= f) env u).1)
    after-Moves (err e) env t u same = subst (λ l. OneMove P (losses t) l) (sym same) no_move
    after-Moves (ok a) env t u same =
        subst (λ l. OneMove P l (losses (f a env u).1)) same (moves a env u)

    pub then-Moves : (m : Action A) → Keeps losses m → Moves P (m >>= f)
    then-Moves m keeps env t = after-Moves (m env t).0 env t (m env t).1 (keeps env t)

  deleted :
      (pod : Pod)
      → P pod
      → (r : Result (Unit {0})) (env : Env) (t : Trace)
      → env.answer (Call.delete_claim pod.namespace (last_claim pod.claim_names)) t ≡ r
      → OneMove P (losses t) (
          losses
            ((do
              expect "failed to delete MinIO pod's PVC"
                  (send (Call.delete_claim pod.namespace (last_claim pod.claim_names)))
              expect "failed to delete MinIO pod" (send (Call.delete_pod pod.namespace pod.name)))
              env t).1)
  deleted pod p (ok _) env t worked = rw (worked) (claim_and_pod pod p)
  deleted pod p (err e) env t broken = rw (broken) (claim_only pod p)

  reschedule_if :
      (pod : Pod)
      → P pod
      → (nameless : Bool)
      → Moves P (
          if nameless then raise (failure "unable to determine PVC name for pod") else do
            expect "failed to delete MinIO pod's PVC"
                (send (Call.delete_claim pod.namespace (last_claim pod.claim_names)))
            expect "failed to delete MinIO pod" (send (Call.delete_pod pod.namespace pod.name)))
  reschedule_if pod p true env t = no_move
  reschedule_if pod p false env t =
      deleted pod p (env.answer (Call.delete_claim pod.namespace (last_claim pod.claim_names)) t)
        env t refl

  pub reschedule_one_pod-Moves : (pod : Pod) → P pod → Moves P (reschedule_one_pod pod)
  unfolding reschedule_one_pod
  reschedule_one_pod-Moves pod p = reschedule_if pod p (last_claim pod.claim_names == "")
