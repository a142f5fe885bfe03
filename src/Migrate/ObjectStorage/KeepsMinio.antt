-- ===== src/Migrate/ObjectStorage/KeepsMinio.antt =====
-- pkg/migrate/storage.go: minio is deleted only after what it held is copied and its consumers moved.
use ekco.Prelude.{
  ℕ, suc, String, ◌≡◌, ◌∙◌, ◌⊎◌, inl, inr, Bool, true, false, [], ◌∷◌, arith, if◌then◌else◌,
}
use ekco.Errors.{Result, ok, err}
use ekco.Kube.{Keeps, Result-cases, Endpoint, Call, minio, Trace, lift, ◌>>=◌, plain, when, Env}
use ekco.Objectstore.Keeps.{ordinary}
use ekco.Objectstore.Keeps.Consumers.{update_consumers-Keeps}
use ekco.Objectstore.Keeps.{sync_all_buckets-Keeps}
use ekco.Objectstore.Usage.{is_minio_in_use}
use ekco.Objectstore.Sync.{sync_all_buckets}
use ekco.Objectstore.Consumers.{update_consumers}
use ekco.Migrate.ObjectStorage.{
  find_stores, minio_pod_ip, move_data, move_found, move_to, migrate_object_storage, no_selector,
  while_paused,
}

abbrev is_removal : Call → Bool
is_removal (Call.delete_stateful_set ns n) = true
is_removal (Call.delete_deployment ns n) = true
is_removal (Call.delete_namespace ns) = true
is_removal _ = false

-- How many deletions of a statefulset, a deployment or a namespace a trace shows.
abbrev pub removals : Trace → ℕ
removals [] = 0
removals (c ∷ t) = let rest = removals t in if is_removal c then suc rest else rest

blind : (c : Call) (t : Trace) → ordinary c ≡ true → removals (c ∷ t) ≡ removals t
blind c t allowed = grind arith

is_minio_in_use-Keeps : (ns : String) → Keeps removals (is_minio_in_use ns)
unfolding is_minio_in_use
is_minio_in_use-Keeps ns env t = ground arith

minio_pod_ip-Keeps : (ns : String) → Keeps removals (minio_pod_ip ns)
unfolding minio_pod_ip
minio_pod_ip-Keeps ns env t = ground arith

find_stores-Keeps : (ns : String) → Keeps removals (find_stores ns)
unfolding find_stores
find_stores-Keeps ns env t = grind (arith, minio_pod_ip-Keeps)

-- The two stores of a run that found them, and that both the copy and the update after it worked.
pub record Moved (ns : String) (env : Env) (t : Trace) : Type 0 where
  pub minio_store : Endpoint
  pub rook : Endpoint
  pub copied : (sync_all_buckets minio_store rook env t).0 ≡ ok tt
  pub consumers :
      (update_consumers
        (move_to ns minio_store rook)
        env
        (sync_all_buckets minio_store rook env t).1).0
      ≡ ok tt

module _ (ns : String) (minio_store rook : Endpoint) (env : Env) (t : Trace) where
  abbrev disabled : Trace
  disabled = Call.patch_service_selector ns "minio" no_selector ∷ t

  abbrev copied_trace : Trace
  copied_trace = (sync_all_buckets minio_store rook env disabled).1

  disabled-sync : removals copied_trace ≡ removals t
  disabled-sync = sync_all_buckets-Keeps removals blind minio_store rook env disabled

  disabled-update :
      removals (update_consumers (move_to ns minio_store rook) env copied_trace).1 ≡ removals t
  disabled-update =
      update_consumers-Keeps removals blind (move_to ns minio_store rook) env copied_trace
      ∙ disabled-sync

  move_data-keeps :
      (removals (move_data ns minio_store rook env t).1 ≡ removals t) ⊎ Moved ns env disabled
  unfolding move_data
  move_data-keeps = elim (Result-cases (sync_all_buckets minio_store rook env disabled).0) [
    | inr (e, broken) ↦ inl (grind (arith, broken, disabled-sync))
    | inl copied ↦
        elim (Result-cases (update_consumers (move_to ns minio_store rook) env copied_trace).0) [
          | inr (e, broken) ↦ inl (grind (arith, copied, broken, disabled-sync, disabled-update))
          | inl consumers ↦ inr (record {
            minio_store = minio_store;
            rook = rook;
            copied = copied;
            consumers = consumers;
          })
        ]
  ]

module _ (ns : String) (env : Env) where
  -- After the two stores are found and the service of minio has lost its pods.
  abbrev pub started : Trace → Trace
  started t = Call.patch_service_selector ns "minio" no_selector ∷ (find_stores ns env t).1

  after_find :
      (r : Result (Endpoint × Endpoint)) (t u : Trace)
      → removals u ≡ removals t
      → (removals ((lift r >>= λ (minio_store, rook). move_data ns minio_store rook) env u).1
          ≡ removals t)
        ⊎ Moved ns env (Call.patch_service_selector ns "minio" no_selector ∷ u)
  after_find (err e) t u same = inl same
  after_find (ok (minio_store, rook)) t u same = elim (move_data-keeps ns minio_store rook env u) [
    | inl kept ↦ inl (kept ∙ same)
    | inr moved ↦ inr moved
  ]

  move_found-keeps :
      (t : Trace) → (removals (move_found ns env t).1 ≡ removals t) ⊎ Moved ns env (started t)
  unfolding move_found
  move_found-keeps t =
      after_find (find_stores ns env t).0 t (find_stores ns env t).1 (find_stores-Keeps ns env t)

  abbrev pub paused : Trace → Trace
  paused u = Call.set_paused minio true ∷ u

  after_use :
      (r : Result Bool) (t u : Trace)
      → removals u ≡ removals t
      → (removals
            ((plain "check if minio is in use" (lift r) >>= λ in_use.
                when in_use (while_paused minio (move_found ns)))
              env u).1
          ≡ removals t)
        ⊎ Moved ns env (started (paused u))
  unfolding while_paused
  after_use (err e) t u same = inl same
  after_use (ok false) t u same = inl same
  after_use (ok true) t u same = elim (move_found-keeps (paused u)) [
    | inl kept ↦ inl (kept ∙ same)
    | inr moved ↦ inr moved
  ]

  -- A migration deletes no statefulset, deployment or namespace unless, from the state in which
  -- minio is paused and its service disabled, all buckets were copied without an error and after
  -- that all consumers were updated without an error.
  pub migrate_object_storage-removals :
      (t : Trace)
      → (removals (migrate_object_storage ns env t).1 ≡ removals t)
        ⊎ Moved ns env (started (paused (is_minio_in_use ns env t).1))
  unfolding migrate_object_storage
  migrate_object_storage-removals t =
      after_use (is_minio_in_use ns env t).0 t (is_minio_in_use ns env t).1
        (is_minio_in_use-Keeps ns env t)
