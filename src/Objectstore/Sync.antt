-- ===== src/Objectstore/Sync.antt =====
-- pkg/objectstore/migrate.go: `SyncAllBuckets` and `syncBucket`.
pub mod Copies
use ekco.Prelude.{ℕ, ◌+◌, String, not, List, [], ◌∷◌, if◌then◌else◌}
use ekco.Kube.{
  number, Endpoint, ObjectInfo, Call, minio, Action, pure, send, ◌>>=◌, ◌>>◌, plain, expect_plain,
  done, when,
}

-- The loop over the objects that the source lists, with the number that is copied.
unfoldable pub copy_objects : Endpoint → Endpoint → String → ℕ → List ObjectInfo → Action ℕ
copy_objects src dst bucket count [] = pure count
copy_objects src dst bucket count (o ∷ objects) = do
  expect_plain "get from source" (send (Call.get_object src bucket o.key))
  expect_plain "failed to copy object to destination" (send (Call.put_object dst bucket o))
  copy_objects src dst bucket (count + 1) objects

unfoldable pub sync_bucket : Endpoint → Endpoint → String → Action ℕ
sync_bucket src dst bucket = do
  exists ←
      expect_plain "failed to check if bucket exists in destination"
        (send (Call.bucket_exists dst bucket))
  when (not exists)
      (expect_plain "failed to make bucket in destination" (send (Call.make_bucket dst bucket)))
  objects ← send (Call.list_objects src bucket)
  copy_objects src dst bucket 0 objects

unfoldable pub sync_buckets : Endpoint → Endpoint → List String → Action (Unit {0})
sync_buckets src dst [] = done
sync_buckets src dst (bucket ∷ buckets) = do
  plain "failed to sync bucket" (sync_bucket src dst bucket)
  sync_buckets src dst buckets

unfoldable pub sync_all_buckets : Endpoint → Endpoint → Action (Unit {0})
sync_all_buckets src dst = do
  expect_plain "failed to initialize minio client" (send (Call.new_object_client src))
  expect_plain "failed to initialize rook client" (send (Call.new_object_client dst))
  buckets ← expect_plain "failed to list minio buckets" (send (Call.list_buckets src))
  sync_buckets src dst buckets
