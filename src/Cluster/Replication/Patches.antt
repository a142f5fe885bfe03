-- ===== src/Cluster/Replication/Patches.antt =====
-- What the patches of a filesystem and of an object store do to it, by what JSON Patch says that
-- "replace" does at the paths that they name.
use Prim.Native.Nat.{max}
use mathlib.Core.List.{append_assoc}
use ekco.Prelude.{
  ℕ, zero, suc, ◌+◌, ◌≡◌, refl, List, [], ◌∷◌, ◌++◌, map, ltb, if◌then◌else◌, arith, ◌==◌, ap,
  Bool-cases, inl, inr, length, length-append, String, Option,
}
use ekco.Kube.{
  Piece, word, number, PatchValue, number_value, JsonPatch, CephFilesystem, CephObjectStore,
}
use ekco.Cluster.Replication.{
  data_pool_patches, pool_patch, filesystem_patches, object_store_patches,
}

-- The member of an object that a path names.
pub data Target : Type 0 where
  data_pool_at : ℕ → Target
  metadata_pool_size : Target
  data_pool_size : Target
  unknown : Target

abbrev pub target : List Piece → Target
target (word s ∷ []) =
    if s == "/spec/metadataPool/replicated/size"
    then metadata_pool_size
    else if s == "/spec/dataPool/replicated/size"
    then data_pool_size
    else unknown
target (word s ∷ number i ∷ r) = if s == "/spec/dataPools/" then data_pool_at i else unknown
target _ = unknown

abbrev pub set_at : ℕ → ℕ → List ℕ → List ℕ
set_at i v [] = []
set_at zero v (x ∷ xs) = v ∷ xs
set_at (suc i) v (x ∷ xs) = x ∷ set_at i v xs

abbrev pub write_filesystem : Target → PatchValue → CephFilesystem → CephFilesystem
write_filesystem (data_pool_at i) (number_value v) fs = record fs {
  data_pools = set_at i v fs.data_pools;
}
write_filesystem metadata_pool_size (number_value v) fs = record fs { metadata_pool = v }
write_filesystem _ _ fs = fs

abbrev pub write_object_store : Target → PatchValue → CephObjectStore → CephObjectStore
write_object_store data_pool_size (number_value v) os = record os { data_pool = v }
write_object_store metadata_pool_size (number_value v) os = record os { metadata_pool = v }
write_object_store _ _ os = os

abbrev pub apply_to_filesystem : List JsonPatch → CephFilesystem → CephFilesystem
apply_to_filesystem [] fs = fs
apply_to_filesystem (p ∷ ps) fs =
    apply_to_filesystem ps (write_filesystem (target p.path) p.value fs)

abbrev pub apply_to_object_store : List JsonPatch → CephObjectStore → CephObjectStore
apply_to_object_store [] os = os
apply_to_object_store (p ∷ ps) os =
    apply_to_object_store ps (write_object_store (target p.path) p.value os)

set_at-append :
    (xs : List ℕ) (v x : ℕ) (ys : List ℕ) → set_at (length xs) v (xs ++ x ∷ ys) ≡ xs ++ v ∷ ys
set_at-append [] v x ys = refl
set_at-append (y ∷ xs) v x ys = ap (λ l. y ∷ l) (set_at-append xs v x ys)

abbrev pub raise_all : ℕ → List ℕ → List ℕ
raise_all level sizes = map (λ size. max size level) sizes

module _ (level : ℕ) (name : String) (meta : ℕ) (rules : Option ℕ) where
  abbrev with_pools : List ℕ → CephFilesystem
  with_pools pools = record {
    name = name;
    data_pools = pools;
    metadata_pool = meta;
    preferred_rules = rules;
  }

  apply_next :
      (patches : List JsonPatch) (before : List ℕ) (v : ℕ) (sizes next : List ℕ)
      → apply_to_filesystem patches (with_pools ((before ++ v ∷ []) ++ sizes))
        ≡ with_pools ((before ++ v ∷ []) ++ next)
      → apply_to_filesystem patches (with_pools (before ++ v ∷ sizes))
        ≡ with_pools (before ++ v ∷ next)
  apply_next patches before v sizes next h = simp append_assoc at h

  apply-data_pool_patches :
      (before sizes : List ℕ) (i : ℕ)
      → i ≡ length before
      → apply_to_filesystem (data_pool_patches level i sizes) (with_pools (before ++ sizes))
        ≡ with_pools (before ++ raise_all level sizes)
  unfolding data_pool_patches
  apply-data_pool_patches before [] i at = refl
  apply-data_pool_patches before (size ∷ sizes) i at =
      let next = λ (v : ℕ).
        apply_next (data_pool_patches level (i + 1) sizes) before v sizes (raise_all level sizes) (
          apply-data_pool_patches (before ++ v ∷ []) sizes (i + 1)
            (omega (arith, length-append before (v ∷ [])))) in
      elim (Bool-cases (ltb size level)) [
        | inl below ↦
            let raised : max size level ≡ level = ground arith in
            rw (below, at, set_at-append before level size sizes, ← at, raised) (next level)
        | inr above ↦
            let same : max size level ≡ size = ground arith in rw (above, same) (next size)
      ]

apply-append :
    (ps qs : List JsonPatch) (fs : CephFilesystem)
    → apply_to_filesystem (ps ++ qs) fs ≡ apply_to_filesystem qs (apply_to_filesystem ps fs)
apply-append [] qs fs = refl
apply-append (p ∷ ps) qs fs = apply-append ps qs (write_filesystem (target p.path) p.value fs)

apply-metadata_patch :
    (level : ℕ) (fs : CephFilesystem)
    → apply_to_filesystem
        (pool_patch "/spec/metadataPool/replicated/size" fs.metadata_pool level)
        fs
      ≡ record fs { metadata_pool = max fs.metadata_pool level }
apply-metadata_patch level fs = ground arith

-- Applied to the filesystem, the patches raise every data pool and the metadata pool that is below the
-- level to it, lower none, and change nothing else.
pub filesystem_patches-raise :
    (level : ℕ) (fs : CephFilesystem)
    → apply_to_filesystem (filesystem_patches level fs) fs ≡ record fs {
      data_pools = raise_all level fs.data_pools;
      metadata_pool = max fs.metadata_pool level;
    }
unfolding filesystem_patches
filesystem_patches-raise level fs =
    rw
      (
        apply-append,
        apply-data_pool_patches level fs.name fs.metadata_pool fs.preferred_rules [] fs.data_pools 0
            refl,
      )
      (apply-metadata_patch level (record fs { data_pools = raise_all level fs.data_pools }))

-- Applied to the object store, the patches raise its data pool and its metadata pool to the level where
-- they are below it, lower none, and change nothing else.
pub object_store_patches-raise :
    (level : ℕ) (os : CephObjectStore)
    → apply_to_object_store (object_store_patches level os) os
      ≡ record os { data_pool = max os.data_pool level; metadata_pool = max os.metadata_pool level }
unfolding object_store_patches
object_store_patches-raise level os = ground arith
