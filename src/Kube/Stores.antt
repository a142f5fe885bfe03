-- ===== src/Kube/Stores.antt =====
-- Services, secrets and what the object stores and Velero hold.
use ekco.Prelude.{ℕ, String, List}

pub record Service : Type 0 where
  pub name : String
  pub selector : List (String × String)
  pub cluster_ip : String

pub record Secret : Type 0 where
  pub name : String
  pub contents : List (String × String)

pub record StorageClass : Type 0 where
  pub annotations : List (String × String)

-- An object store as its clients are made for it.
pub record Endpoint : Type 0 where
  pub address : String
  pub access_key : String
  pub secret_key : String

pub record ObjectInfo : Type 0 where
  pub key : String
  pub size : ℕ
  pub content_type : String
  pub content_encoding : String

-- A BackupStorageLocation: its configuration.
pub record BackupLocation : Type 0 where
  pub config : List (String × String)

pub record BackupRepository : Type 0 where
  pub name : String
  pub restic_identifier : String
