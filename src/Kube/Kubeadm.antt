-- ===== src/Kube/Kubeadm.antt =====
-- pkg/cluster/purge_node.go: `k8s121ClusterStatus` and `k8s121APIEndpoint`, the ClusterStatus that
-- kubeadm keeps as YAML, with the lowercase keys of a malformed one. A nil map is `none`.
use ekco.Prelude.{ℕ, String, Option, List}

pub record ApiEndpoint : Type 0 where
  pub advertise_address : String
  pub advertise_address_lc : String
  pub bind_port : ℕ
  pub bind_port_lc : ℕ

abbrev pub Endpoints : Type 0
Endpoints = List (String × ApiEndpoint)

pub record ClusterStatus : Type 0 where
  pub meta_kind : String
  pub meta_api_version : String
  pub kind : String
  pub api_version : String
  pub api_endpoints : Option Endpoints
  pub api_endpoints_lc : Option Endpoints
