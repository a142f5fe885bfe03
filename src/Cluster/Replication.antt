-- ===== src/Cluster/Replication.antt =====
-- pkg/cluster/rook_ceph.go: the replication levels of the ceph pools.
pub mod Patches
pub mod Outcome
use Prim.Native.String.{◌++◌ as join_text}
use text.Mathlib.Text.{starts_with}
use ekco.Prelude.{
  ℕ, ◌+◌, String, Bool, true, false, not, ◌&&◌, ◌||◌, Option, none, some, List, [], ◌∷◌, ◌++◌, ◌==◌,
  ltb, leb, if◌then◌else◌, is_empty, contains,
}
use ekco.Errors.{
  is_not_found_err, is_ceph_enoent, add_failure, Error, Result, failure, wrapped, ok, err,
}
use ekco.Kube.{
  Version, CephBlockPool, CephFilesystem, CephObjectStore, Piece, JsonPatch, word, number,
  number_value, Call, Action, pure, raise, attempt, wrap, send, ◌>>=◌, ◌>>◌, expect, done, when,
  report,
}
use ekco.Cluster.Versions.{
  rook_v14, ceph_quincy, rook_ceph_shared_fs_metadata_pool, rook_ceph_shared_fs_data_pool,
  ceph_device_health_metrics_pool, ceph_device_health_metrics_pool_quincy,
  rook_ceph_object_store_root_pool, rook_ceph_object_store_metadata_pools,
  rook_ceph_object_store_metadata_pools_quincy, rook_ceph_object_store_data_pools,
}
use ekco.Cluster.Exec.{
  before, ceph_osd_pool_set_size, ceph_osd_pool_set_min_size, ceph_osd_pool_set_pg_num_min,
}

abbrev pub replace : List Piece → ℕ → JsonPatch
replace path level = record { op = "replace"; path = path; value = number_value level }

-- `minSize`
abbrev pub min_size_for : ℕ → ℕ
min_size_for level = if ltb 1 level then 2 else 1

-- Whether the major version is Quincy or later.
abbrev pub is_quincy : Option Version → Bool
is_quincy none = false
is_quincy (some v) = leb ceph_quincy.major v.major

-- A NotFound error is no failure: there is nothing to scale.
abbrev pub if_found {ℓ} : {A : Type ℓ} → String → Result A → (A → Action Bool) → Action Bool
if_found note (ok a) next = next a
if_found note (err e) next = if is_not_found_err e then pure false else raise (wrapped note e)

abbrev pub block_pool_patches : ℕ → List JsonPatch
block_pool_patches level = replace (word "/spec/replicated/size" ∷ []) level ∷ []

-- Both sizes of one pool, in the order of the commands.
unfoldable pub scale_pool : Version → Option Version → String → ℕ → Action (Unit {0})
scale_pool rook_version ceph_version name level = do
  wrap "set pool size" (ceph_osd_pool_set_size rook_version ceph_version name level)
  wrap "set pool min_size" (ceph_osd_pool_set_min_size rook_version name (min_size_for level))

-- `GetBlockPoolReplicationLevel`: a missing pool has level 0.
unfoldable pub get_block_pool_replication_level : String → Action ℕ
get_block_pool_replication_level name =
    if name == "" then raise (failure "name of CephBlockPool required") else do
      found ← send (Call.get_block_pool name)
      elim found [
        | ok pool ↦ pure pool.replicated_size
        | err e ↦ if is_not_found_err e then pure 0 else raise (wrapped "get CephBlockPool" e)
      ]

abbrev patch_block_pool : Version → Option Version → String → ℕ → Bool → CephBlockPool → Action Bool
patch_block_pool rook_version ceph_version name level full pool =
    if not (ltb pool.replicated_size level || full) then pure false else do
      expect "patch CephBlockPool"
          (send (Call.patch_block_pool pool.name (block_pool_patches level)))
      old ← before rook_version rook_v14
      when old (scale_pool rook_version ceph_version name level)
      pure true

unfoldable pub set_block_pool_replication :
    Version → Option Version → String → ℕ → Bool → Action Bool
set_block_pool_replication rook_version ceph_version name level full =
    if name == "" then pure false else do
      found ← send (Call.get_block_pool name)
      if_found "get CephBlockPool" found
          (patch_block_pool rook_version ceph_version name level full)

abbrev device_health_metrics_pool : Option Version → String
device_health_metrics_pool ceph_version =
    if is_quincy ceph_version
    then ceph_device_health_metrics_pool_quincy
    else ceph_device_health_metrics_pool

unfoldable pub set_device_health_metrics_replication :
    Version → Option Version → ℕ → Bool → Action Bool
set_device_health_metrics_replication rook_version ceph_version level full = do
  old ← before rook_version rook_v14
  if old || not full then pure false else do
    scale_pool rook_version ceph_version (device_health_metrics_pool ceph_version) level
    pure true

-- The loop over the data pools from index `i` on.
data_pool_patches : ℕ → ℕ → List ℕ → List JsonPatch
data_pool_patches level i [] = []
data_pool_patches level i (size ∷ sizes) =
    let rest = data_pool_patches level (i + 1) sizes in
    if ltb size level
    then replace (word "/spec/dataPools/" ∷ number i ∷ word "/replicated/size" ∷ []) level ∷ rest
    else rest

abbrev pub pool_patch : String → ℕ → ℕ → List JsonPatch
pool_patch path size level = if ltb size level then replace (word path ∷ []) level ∷ [] else []

unfoldable pub filesystem_patches : ℕ → CephFilesystem → List JsonPatch
unfolding data_pool_patches
filesystem_patches level fs =
    data_pool_patches level 0 fs.data_pools
    ++ pool_patch "/spec/metadataPool/replicated/size" fs.metadata_pool level

abbrev patch_filesystem : Version → Option Version → ℕ → Bool → CephFilesystem → Action Bool
patch_filesystem rook_version ceph_version level full fs =
    let patches = filesystem_patches level fs in
    if not (not (is_empty patches) || full) then pure false else do
      expect "patch Filesystem" (send (Call.patch_filesystem fs.name patches))
      old ← before rook_version rook_v14
      when old do
        scale_pool rook_version ceph_version rook_ceph_shared_fs_metadata_pool level
        scale_pool rook_version ceph_version rook_ceph_shared_fs_data_pool level
      pure true

unfoldable pub set_filesystem_replication :
    Version → Option Version → String → ℕ → Bool → Action Bool
set_filesystem_replication rook_version ceph_version name level full =
    if name == "" then pure false else do
      found ← send (Call.get_filesystem name)
      if_found "get Filesystem" found (patch_filesystem rook_version ceph_version level full)

unfoldable pub object_store_patches : ℕ → CephObjectStore → List JsonPatch
object_store_patches level os =
    pool_patch "/spec/dataPool/replicated/size" os.data_pool level
    ++ pool_patch "/spec/metadataPool/replicated/size" os.metadata_pool level

unfoldable pub object_store_pool_name : String → String → String
object_store_pool_name store_name pool_name =
    if starts_with pool_name "." then pool_name else join_text store_name (join_text "." pool_name)

-- One round over the object store's pools: the non-ec metadata pool does not always exist.
abbrev pub after_set_size : Version → String → String → ℕ → Result (Unit {0}) → Action (Unit {0})
after_set_size rook_version store pool level (ok _) = wrap "scale ceph object store pool min_size" (
    ceph_osd_pool_set_min_size rook_version (object_store_pool_name store pool)
      (min_size_for level))
after_set_size rook_version store pool level (err e) =
    if is_ceph_enoent e && contains rook_ceph_object_store_metadata_pools pool
    then done
    else raise (wrapped "scale ceph object store pool size" e)

unfoldable pub scale_object_store_pools :
    Version → Option Version → String → ℕ → List String → Action (Unit {0})
scale_object_store_pools rook_version ceph_version store level [] = done
scale_object_store_pools rook_version ceph_version store level (pool ∷ pools) = do
  r ←
      attempt
        (ceph_osd_pool_set_size rook_version ceph_version (object_store_pool_name store pool) level)
  after_set_size rook_version store pool level r
  scale_object_store_pools rook_version ceph_version store level pools

abbrev pub object_store_pools : List String
object_store_pools =
    (rook_ceph_object_store_root_pool ∷ rook_ceph_object_store_metadata_pools)
    ++ rook_ceph_object_store_data_pools

-- Every pool is tried, and the failures are collected.
unfoldable pub lower_pg_num_min :
    Version → String → Option Error → List String → Action (Option Error)
lower_pg_num_min rook_version store errs [] = pure errs
lower_pg_num_min rook_version store errs (pool ∷ pools) = do
  r ← attempt (ceph_osd_pool_set_pg_num_min rook_version (object_store_pool_name store pool) 8)
  lower_pg_num_min rook_version store
      (add_failure "set ceph object store metadata pool pg_num_min" errs r) pools

abbrev patch_object_store :
    Version → Option Version → String → ℕ → Bool → CephObjectStore → Action Bool
patch_object_store rook_version ceph_version name level full os =
    let patches = object_store_patches level os in
    if not (not (is_empty patches) || full) then pure false else do
      expect "patch CephObjectStore" (send (Call.patch_object_store os.name patches))
      old ← before rook_version rook_v14
      when old (scale_object_store_pools rook_version ceph_version name level object_store_pools)
      when (is_quincy ceph_version) do
        errs ←
            lower_pg_num_min rook_version name none
              (rook_ceph_object_store_root_pool ∷ rook_ceph_object_store_metadata_pools_quincy)
        report errs
      pure true

unfoldable pub set_object_store_replication :
    Version → Option Version → String → ℕ → Bool → Action Bool
set_object_store_replication rook_version ceph_version name level full =
    if name == "" then pure false else do
      found ← send (Call.get_object_store name)
      if_found "get CephObjectStore" found
          (patch_object_store rook_version ceph_version name level full)
