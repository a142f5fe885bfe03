-- ===== src/Objectstore/Keeps.antt =====
-- What copying the objects and moving their consumers leave alone: a reading `f` of the trace that only
-- a deletion or the status of a migration can change.
pub mod Consumers
use ekco.Prelude.{ℕ, ◌+◌, String, ◌≡◌, refl, Bool, true, false, List, [], ◌∷◌, arith}
use ekco.Kube.{Keeps, Endpoint, ObjectInfo, Call, Trace}
use ekco.Objectstore.Sync.{copy_objects, sync_bucket, sync_buckets, sync_all_buckets}

abbrev pub ordinary : Call → Bool
ordinary (Call.set_migration_status s) = false
ordinary (Call.delete_stateful_set ns n) = false
ordinary (Call.delete_deployment ns n) = false
ordinary (Call.delete_namespace ns) = false
ordinary (Call.delete_claim ns n) = false
ordinary _ = true

module _ {X : Type 0} (f : Trace → X)
    (blind : (c : Call) (t : Trace) → ordinary c ≡ true → f (c ∷ t) ≡ f t) where
  copy_objects-Keeps :
      (src dst : Endpoint) (bucket : String) (n : ℕ) (objects : List ObjectInfo)
      → Keeps f (copy_objects src dst bucket n objects)
  unfolding copy_objects
  copy_objects-Keeps src dst bucket n [] env t = refl
  copy_objects-Keeps src dst bucket n (o ∷ objects) env t =
      grind (arith, blind, copy_objects-Keeps src dst bucket (n + 1) objects)

  sync_bucket-Keeps : (src dst : Endpoint) (bucket : String) → Keeps f (sync_bucket src dst bucket)
  unfolding sync_bucket
  sync_bucket-Keeps src dst bucket env t = grind (arith, blind, copy_objects-Keeps)

  sync_buckets-Keeps :
      (src dst : Endpoint) (buckets : List String) → Keeps f (sync_buckets src dst buckets)
  unfolding sync_buckets
  sync_buckets-Keeps src dst [] env t = refl
  sync_buckets-Keeps src dst (bucket ∷ buckets) env t =
      grind (arith, sync_bucket-Keeps, sync_buckets-Keeps src dst buckets)

  pub sync_all_buckets-Keeps : (src dst : Endpoint) → Keeps f (sync_all_buckets src dst)
  unfolding sync_all_buckets
  sync_all_buckets-Keeps src dst env t = grind (arith, blind, sync_buckets-Keeps)
