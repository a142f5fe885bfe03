-- ===== src/Kube/Files.antt =====
-- What is read from and written to files: the manifest of a static pod, a kubeconfig file, the values of
-- a chart, and the certificate that kubeadm's renewer is asked for.
use ekco.Prelude.{ℕ, String, List}

-- The annotations and the images of the containers.
pub record PodManifest : Type 0 where
  pub annotations : List (String × String)
  pub images : List String

-- The server of each cluster; `others` stands for the rest of the file.
pub record KubeConfig : Type 0 where
  pub clusters : List (String × String)
  pub others : String

-- `map[string]interface{}`
mutual
  pub data Value : Type 0 where
    null : Value
    text_value : String → Value
    map_value : Fields → Value
    other_value : String → Value

  pub data Fields : Type 0 where
    no_fields : Fields
    with_field : String → Value → Fields → Fields

-- `pkiutil.CertConfig`
pub record RenewalConfig : Type 0 where
  pub common_name : String
  pub organization : List String
  pub ip_addresses : List String
  pub dns_names : List String
  pub usages : List ℕ
  pub not_after : ℕ
  pub encryption_algorithm : String
