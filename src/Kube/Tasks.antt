-- ===== src/Kube/Tasks.antt =====
-- The pods that run a task on one node, and certificates as crypto/x509 has them.
use ekco.Prelude.{ℕ, String, Bool, List}

-- `mounts` are the names of volumes and where they are mounted; `env_fields` gives each variable the
-- field of the pod that it is read from.
pub record TaskContainer : Type 0 where
  pub name : String
  pub image : String
  pub command : List String
  pub env_fields : List (String × String)
  pub mounts : List (String × String)
  pub working_dir : String
  pub is_privileged : Bool

-- A toleration is the key of a taint with the effect NoSchedule that need only exist; the volumes are
-- paths of the host. Images are pulled if they are not present, and a pod is never restarted.
pub record TaskPod : Type 0 where
  pub generate_name : String
  pub namespace : String
  pub labels : List (String × String)
  pub node_selector : List (String × String)
  pub tolerations : List String
  pub init_containers : List TaskContainer
  pub containers : List TaskContainer
  pub host_paths : List (String × String)

-- The types of `PublicKey` that `GetEncryptionAlgorithmType` tells apart, with the size in bytes of an
-- RSA key and the name of a curve.
pub data PublicKey : Type 0 where
  rsa_key : ℕ → PublicKey
  ecdsa_key : String → PublicKey
  other_key : PublicKey

pub record Certificate : Type 0 where
  pub common_name : String
  pub issuer_common_name : String
  pub organization : List String
  pub dns_names : List String
  pub ip_addresses : List String
  pub ext_key_usage : List ℕ
  pub not_after : ℕ
  pub public_key : PublicKey

-- What `x509.CreateCertificate` is given: the key usage is the list of its bits.
pub record CertTemplate : Type 0 where
  pub common_name : String
  pub organization : List String
  pub dns_names : List String
  pub ip_addresses : List String
  pub serial_number : ℕ
  pub not_before : ℕ
  pub not_after : ℕ
  pub key_usage : List String
  pub ext_key_usage : List ℕ
  pub is_ca : Bool

-- The PEM files of `certs.GenerateCerts` of Contour.
pub record ContourCerts : Type 0 where
  pub ca_certificate : String
  pub contour_certificate : String
  pub contour_private_key : String
  pub envoy_certificate : String
  pub envoy_private_key : String
