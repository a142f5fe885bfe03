-- ===== src/Cluster/Minio/KeepsData.antt =====
-- pkg/cluster/minio.go: the old minio is deleted only after what it held is copied to the new one.
use ekco.Prelude.{
  ℕ, suc, String, ◌≡◌, refl, ◌∙◌, ◌⊎◌, inl, inr, Bool, true, false, [], ◌∷◌, arith, if◌then◌else◌,
}
use ekco.Errors.{Result, ok, err}
use ekco.Kube.{
  Keeps, Result-cases, Service, Endpoint, Call, Trace, lift, send, ◌>>=◌, ◌>>◌, when, Env,
}
use ekco.Objectstore.Keeps.{ordinary, sync_all_buckets-Keeps}
use ekco.Objectstore.Sync.{sync_all_buckets}
use ekco.Cluster.Minio.{
  ha_minio_healthy, find_minio_stores, switch_to_ha, sync_and_switch, migrate_minio_data,
  ha_selector, health_url, is_status_ok, disable_found,
}

abbrev is_cleanup : Call → Bool
is_cleanup (Call.delete_deployment ns n) = true
is_cleanup (Call.delete_claim ns n) = true
is_cleanup _ = false

-- The deletions of deployments and claims that a trace shows.
abbrev pub cleanups : Trace → ℕ
cleanups [] = 0
cleanups (c ∷ t) = let rest = cleanups t in if is_cleanup c then suc rest else rest

blind : (c : Call) (t : Trace) → ordinary c ≡ true → cleanups (c ∷ t) ≡ cleanups t
blind c t allowed = grind arith

find_minio_stores-Keeps : (ns : String) → Keeps cleanups (find_minio_stores ns)
unfolding find_minio_stores
find_minio_stores-Keeps ns env t = ground arith

-- A run that found the two stores after `before`, copied all buckets and then pointed the service at the
-- new store.
pub record Switched (ns : String) (env : Env) (before : Trace) : Type 0 where
  pub old : Endpoint
  pub new : Endpoint
  pub found : (find_minio_stores ns env before).0 ≡ ok (old, new)
  pub copied : (sync_all_buckets old new env (find_minio_stores ns env before).1).0 ≡ ok tt
  pub pointed :
      env.answer
        (Call.patch_service_selector ns "minio" ha_selector)
        (sync_all_buckets old new env (find_minio_stores ns env before).1).1
      ≡ ok tt

module _ (ns : String) (old new : Endpoint) (env : Env) (t : Trace) where
  abbrev copied_trace : Trace
  copied_trace = (sync_all_buckets old new env t).1

  copied_kept : cleanups copied_trace ≡ cleanups t
  copied_kept = sync_all_buckets-Keeps cleanups blind old new env t

  sync_and_switch-keeps :
      (cleanups (sync_and_switch ns old new env t).1 ≡ cleanups t)
      ⊎ (((sync_all_buckets old new env t).0 ≡ ok tt)
          × (env.answer (Call.patch_service_selector ns "minio" ha_selector) copied_trace ≡ ok tt))
  unfolding sync_and_switch switch_to_ha
  sync_and_switch-keeps = elim (Result-cases (sync_all_buckets old new env t).0) [
    | inr (e, broken) ↦ inl (grind (arith, broken, copied_kept))
    | inl copied ↦
        elim (Result-cases
          (env.answer (Call.patch_service_selector ns "minio" ha_selector) copied_trace)) [
            | inr (e, broken) ↦ inl (grind (arith, copied, broken, copied_kept))
            | inl pointed ↦ inr (copied, pointed)
          ]
  ]

module _ (ns : String) (env : Env) where
  after_stores :
      (r : Result (Endpoint × Endpoint)) (before : Trace)
      → (find_minio_stores ns env before).0 ≡ r
      → (cleanups
            ((lift r >>= λ (old, new). sync_and_switch ns old new) env
              (find_minio_stores ns env before).1).1
          ≡ cleanups before)
        ⊎ Switched ns env before
  after_stores (err e) before found = inl (find_minio_stores-Keeps ns env before)
  after_stores (ok (old, new)) before found =
      elim (sync_and_switch-keeps ns old new env (find_minio_stores ns env before).1) [
        | inl kept ↦ inl (kept ∙ find_minio_stores-Keeps ns env before)
        | inr (copied, pointed) ↦
            inr (record { old = old; new = new; found = found; copied = copied; pointed = pointed })
      ]

  -- Once the old service is disabled or missing.
  abbrev pub Outcome : Trace → Trace → Type 0
  Outcome t u = (cleanups u ≡ cleanups t) ⊎ ((before : Trace) × Switched ns env before)

  after_disable :
      (r : Result (Unit {0})) (t u : Trace)
      → cleanups u ≡ cleanups t
      → Outcome t
          ((lift r >>= λ _. find_minio_stores ns >>= λ (old, new). sync_and_switch ns old new) env
            u).1
  after_disable (err e) t u same = inl same
  after_disable (ok _) t u same = elim (after_stores (find_minio_stores ns env u).0 u refl) [
    | inl kept ↦ inl (kept ∙ same)
    | inr switched ↦ inr (u, switched)
  ]

  disable_found-Keeps : (found : Result Service) → Keeps cleanups (disable_found ns found)
  disable_found-Keeps found env t = ground arith

  when_healthy :
      (b : Bool) (t u : Trace)
      → cleanups u ≡ cleanups t
      → Outcome t
          ((when b do
            service ← send (Call.get_service ns "minio")
            disable_found ns service
            (old, new) ← find_minio_stores ns
            sync_and_switch ns old new)
            env u).1
  when_healthy false t u same = inl same
  when_healthy true t u same =
      let asked = Call.get_service ns "minio" ∷ u in
      let disabled = disable_found ns (env.answer (Call.get_service ns "minio") u) in
      after_disable (disabled env asked).0 t (disabled env asked).1
        (disable_found-Keeps (env.answer (Call.get_service ns "minio") u) env asked ∙ same)

  -- A call deletes no deployment and no claim, or it found the two stores, copied all buckets from the
  -- one to the other without an error, and after that pointed the service at the new store without an
  -- error.
  pub migrate_minio_data-Outcome : (t : Trace) → Outcome t (migrate_minio_data ns env t).1
  unfolding migrate_minio_data ha_minio_healthy
  migrate_minio_data-Outcome t =
      when_healthy (is_status_ok (env.answer (Call.http_get (health_url ns)) t)) t
        (Call.http_get (health_url ns) ∷ t) refl
