-- ===== src/Cluster/Kubeadm.antt =====
-- pkg/cluster/purge_node.go: kubeadm's ClusterStatus and the removal of an API endpoint from it.
pub mod Status
use ekco.Prelude.{
  ℕ, String, Bool, not, ◌||◌, Option, none, some, List, [], ◌∷◌, ◌++◌, map, ◌==◌, eqb,
  if◌then◌else◌, lookup, erase, insert,
}
use ekco.Errors.{api, failure}
use ekco.Kube.{
  Pod, ConfigMap, Endpoints, ApiEndpoint, ClusterStatus, Call, Action, pure, raise, lift, asks,
  wrap, send, ◌>>=◌, ◌>>◌, expect, when,
}

abbrev pub cluster_status_config_map_key : String
cluster_status_config_map_key = "ClusterStatus"

-- The methods of `k8s121APIEndpoint`.
abbrev pub advertise_address_of : ApiEndpoint → String
advertise_address_of e =
    if e.advertise_address_lc == "" then e.advertise_address else e.advertise_address_lc

abbrev pub bind_port_of : ApiEndpoint → ℕ
bind_port_of e = if eqb e.bind_port_lc 0 then e.bind_port else e.bind_port_lc

-- The methods of `k8s121ClusterStatus`.
abbrev pub kind_of : ClusterStatus → String
kind_of k = if k.meta_kind == "" then k.kind else k.meta_kind

abbrev pub api_version_of : ClusterStatus → String
api_version_of k = if k.meta_api_version == "" then k.api_version else k.meta_api_version

abbrev pub api_endpoints_of : ClusterStatus → Option Endpoints
api_endpoints_of k = elim k.api_endpoints_lc [ none ↦ k.api_endpoints | some es ↦ some es ]

abbrev pub is_malformed : ClusterStatus → Bool
is_malformed k = not (k.meta_kind == "") || not (k.meta_api_version == "")

-- A nil map has no entries.
abbrev pub entries : Option Endpoints → Endpoints
entries none = []
entries (some es) = es

-- `delete(apiEndpoints, name)`: the map is the one that `apiEndpoints` returned, so the status changes.
abbrev pub delete_endpoint : String → ClusterStatus → ClusterStatus
delete_endpoint name k = elim k.api_endpoints_lc [
  | none ↦ elim k.api_endpoints [
    | none ↦ k
    | some es ↦ record k { api_endpoints = some (erase name es) }
  ]
  | some es ↦ record k { api_endpoints_lc = some (erase name es) }
]

abbrev pub plain_endpoint : String × ApiEndpoint → String × ApiEndpoint
plain_endpoint (name, e) = (
  name,
  record {
    advertise_address = advertise_address_of e;
    advertise_address_lc = "";
    bind_port = bind_port_of e;
    bind_port_lc = 0;
  },
)

-- `clusterStatusToWrite` of `marshalClusterStatus`
unfoldable pub status_to_write : ClusterStatus → ClusterStatus
status_to_write k = record {
  meta_kind = "";
  meta_api_version = "";
  kind = kind_of k;
  api_version = api_version_of k;
  api_endpoints = some (map plain_endpoint (entries (api_endpoints_of k)));
  api_endpoints_lc = none;
}

abbrev or_raise {ℓ} : {A : Type ℓ} → String → Option A → Action A
or_raise note none = raise (failure note)
or_raise note (some a) = pure a

abbrev pub unmarshal_cluster_status : String → Action ClusterStatus
unmarshal_cluster_status yaml = do
  or_raise "failed to unmarshal kubeadm-config ClusterStatus"
      (← asks (λ env. env.unmarshal_status yaml))

abbrev pub marshal_cluster_status : ClusterStatus → Action String
marshal_cluster_status k = do
  or_raise "failed to marshal kubeadm-config ClusterStatus"
      (← asks (λ env. env.marshal_status (status_to_write k)))

-- Writes the status back to the ConfigMap.
abbrev pub write_status : ConfigMap → ClusterStatus → Action (Unit {0})
write_status cm k = do
  yaml ← marshal_cluster_status k
  wrap "update kube-system kubeadm-config ConfigMap" (
      lift
        (← send (
          Call.update_config_map "kube-system"
            (record cm { contents = insert cluster_status_config_map_key yaml cm.contents }))))

abbrev pub addresses : Endpoints → List String
addresses es = map (λ e. advertise_address_of e.1) es

-- With the status read: the removed address, and those that remain.
abbrev remove_endpoint_from : String → ConfigMap → ClusterStatus → Action (String × List String)
remove_endpoint_from name cm k = elim (lookup name (entries (api_endpoints_of k))) [
  | some endpoint ↦ (do
    write_status cm (delete_endpoint name k)
    pure (
      advertise_address_of endpoint,
      addresses (entries (api_endpoints_of (delete_endpoint name k))),
    ))
  | none ↦ (do
    when (is_malformed k) (write_status cm k)
    pure ("", addresses (entries (api_endpoints_of k))))
]

abbrev with_status_text : String → ConfigMap → Option String → Action (String × List String)
with_status_text name cm none = pure ("", [])
with_status_text name cm (some yaml) = do
  k ← unmarshal_cluster_status yaml
  remove_endpoint_from name cm k

-- A nil slice of addresses is the empty list.
unfoldable pub remove_kubeadm_endpoint : String → Action (String × List String)
remove_kubeadm_endpoint name = do
  cm ←
      expect "get kube-system kubeadm-config ConfigMap"
        (send (Call.get_config_map "kube-system" "kubeadm-config"))
  with_status_text name cm (lookup cluster_status_config_map_key cm.contents)

abbrev pub endpoint_annotation : String
endpoint_annotation = "kubeadm.kubernetes.io/kube-apiserver.advertise-address.endpoint"

-- The address in the annotation of a pod, if it has one.
abbrev pod_endpoint : Option String → Action (List String)
pod_endpoint none = pure []
pod_endpoint (some raw) = do
  address ←
      or_raise "could not parse api server endpoint from pod annotation"
        (← asks (λ env. env.parse_api_endpoint raw))
  pure (address ∷ [])

-- The pods are parsed in order, so the first one that does not parse decides the error.
unfoldable pub pod_endpoints : List Pod → Action (List String)
pod_endpoints [] = pure []
pod_endpoints (pod ∷ pods) = do
  first ← pod_endpoint (lookup endpoint_annotation pod.annotations)
  rest ← pod_endpoints pods
  pure (first ++ rest)

unfoldable pub get_endpoint_ips_from_pods : Action (List String)
unfolding pod_endpoints
get_endpoint_ips_from_pods = do
  pods ←
      expect "could not retrieve list of pods to determine api server endpoints"
        (send (Call.list_pods "kube-system" "component=kube-apiserver,tier=control-plane"))
  pod_endpoints pods
