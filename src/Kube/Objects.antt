-- ===== src/Kube/Objects.antt =====
-- The Kubernetes objects, with the fields that the program reads or writes. Times are seconds; a
-- missing or zero time is `none`. A Go map is an association list.
use ekco.Prelude.{Bool, ℕ, String, Option, List}

pub record Taint : Type 0 where
  pub key : String
  pub time_added : Option ℕ

pub data AddressType : Type 0 where
  internal_ip other_address : AddressType

pub record Address : Type 0 where
  pub type : AddressType
  pub address : String

pub record Node : Type 0 where
  pub name : String
  pub labels : List (String × String)
  pub taints : List Taint
  pub addresses : List Address

-- `started_at` is `none` unless the container is running.
pub record ContainerStatus : Type 0 where
  pub name : String
  pub ready : Bool
  pub started_at : Option ℕ

pub record PodCondition : Type 0 where
  pub type : String
  pub reason : String
  pub status : String
  pub last_transition_time : ℕ

pub record PodStatus : Type 0 where
  pub phase : String
  pub pod_ip : String
  pub host_ip : String
  pub container_statuses : List ContainerStatus
  pub conditions : List PodCondition

pub record Pod : Type 0 where
  pub namespace : String
  pub name : String
  pub annotations : List (String × String)
  pub deletion_timestamp : Option ℕ
  pub status : PodStatus
  -- The claims of its volumes.
  pub claim_names : List String

pub record Container : Type 0 where
  pub name : String
  pub image : String
  pub args : List String

pub record WorkloadStatus : Type 0 where
  pub replicas : ℕ
  pub ready_replicas : ℕ
  pub available_replicas : ℕ
  pub unavailable_replicas : ℕ
  pub updated_replicas : ℕ

-- A Deployment, a StatefulSet or a DaemonSet; `pod_annotations` are those of the template, and
-- `replicas` is `none` for a nil pointer.
pub record Workload : Type 0 where
  pub name : String
  pub labels : List (String × String)
  pub annotations : List (String × String)
  pub pod_annotations : List (String × String)
  pub replicas : Option ℕ
  pub node_selector : List (String × String)
  pub containers : List Container
  pub priority_class_name : String
  pub status : WorkloadStatus

pub record ConfigMap : Type 0 where
  pub name : String
  pub contents : List (String × String)

-- A certificate signing request: `conditions` holds the reasons of its conditions, `certificate` its
-- bytes.
pub record Csr : Type 0 where
  pub name : String
  pub signer_name : String
  pub conditions : List String
  pub certificate : List ℕ

pub record EtcdMember : Type 0 where
  pub id : ℕ
  pub first_peer_url : String

-- What `ExecContainer` returns beside its error.
pub record ExecResult : Type 0 where
  pub exit_code : ℕ
  pub stdout : String
  pub stderr : String
