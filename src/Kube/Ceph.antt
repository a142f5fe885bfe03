-- ===== src/Kube/Ceph.antt =====
-- The Rook objects, versions, and the JSON patches of pkg/k8s/patch.go.
use ekco.Prelude.{ℕ, String, Option, List, Bool}

pub record Version : Type 0 where
  pub major : ℕ
  pub minor : ℕ
  pub patch : ℕ
  pub pre : List String

pub record StorageNode : Type 0 where
  pub name : String
  pub config : List (String × String)

pub record CephCluster : Type 0 where
  pub storage_nodes : List StorageNode
  pub phase : String
  pub health : Option String
  pub mon_count : ℕ
  pub mgr_count : ℕ
  pub image : String
  pub status_version : Option String

pub record CephBlockPool : Type 0 where
  pub name : String
  pub replicated_size : ℕ

-- `data_pools` holds the replicated sizes; `preferred_rules` is the number of preferred
-- pod-anti-affinity rules of the metadata server, if it has an anti-affinity.
pub record CephFilesystem : Type 0 where
  pub name : String
  pub data_pools : List ℕ
  pub metadata_pool : ℕ
  pub preferred_rules : Option ℕ

pub record CephObjectStore : Type 0 where
  pub name : String
  pub data_pool : ℕ
  pub metadata_pool : ℕ

-- A piece of a formatted text.
pub data Piece : Type 0 where
  word : String → Piece
  number : ℕ → Piece

pub data PatchValue : Type 0 where
  number_value : ℕ → PatchValue
  bool_value : Bool → PatchValue
  nodes_value : List StorageNode → PatchValue

-- `JSONPatchOperation`; every patch of the program has the operation "replace".
pub record JsonPatch : Type 0 where
  pub op : String
  pub path : List Piece
  pub value : PatchValue
