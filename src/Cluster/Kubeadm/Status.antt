-- ===== src/Cluster/Kubeadm/Status.antt =====
-- What is written back to the ConfigMap: the same status in well-formed keys, less the removed
-- endpoint.
use ekco.Prelude.{
  ℕ, String, ◌≡◌, refl, false, Option, none, some, List, [], ◌∷◌, map, arith, ◌==◌, eq_iff,
  if◌then◌else◌, lookup, erase, insert,
}
use ekco.Errors.{ok}
use ekco.Kube.{ConfigMap, Endpoints, ApiEndpoint, ClusterStatus, Call, Trace, Env}
use ekco.Cluster.Kubeadm.{
  cluster_status_config_map_key, advertise_address_of, bind_port_of, kind_of, api_version_of,
  api_endpoints_of, is_malformed, entries, delete_endpoint, plain_endpoint, status_to_write,
  addresses, remove_kubeadm_endpoint,
}

-- The address and the port under a name, if the status has it.
abbrev pub found_at : Option ApiEndpoint → Option (String × ℕ)
found_at none = none
found_at (some e) = some (advertise_address_of e, bind_port_of e)

abbrev pub endpoint_at : String → ClusterStatus → Option (String × ℕ)
endpoint_at name k = found_at (lookup name (entries (api_endpoints_of k)))

found_at-plain :
    (name : String) (es : Endpoints)
    → found_at (lookup name (map plain_endpoint es)) ≡ found_at (lookup name es)
found_at-plain name [] = refl
found_at-plain name ((j, e) ∷ es) = ground (arith, found_at-plain name es)

-- The status that is written back has the kind, the version and the endpoints of the one that was read,
-- whichever keys these were read from; it is never malformed.
pub status_to_write_keeps :
    (k : ClusterStatus)
    → (is_malformed (status_to_write k) ≡ false)
      × (kind_of (status_to_write k) ≡ kind_of k)
      × (api_version_of (status_to_write k) ≡ api_version_of k)
      × ((name : String) → endpoint_at name (status_to_write k) ≡ endpoint_at name k)
unfolding status_to_write
status_to_write_keeps k =
    (refl, refl, refl, λ name. found_at-plain name (entries (api_endpoints_of k)))

-- What a status says, whichever way it is spelled: kind, version, and by name the address and the port.
abbrev pub Content : Type 0
Content = String × String × List (String × String × ℕ)

abbrev plain_point : String × String × ℕ → String × ApiEndpoint
plain_point (name, address, port) = (
  name,
  record {
    advertise_address = address;
    advertise_address_lc = "";
    bind_port = port;
    bind_port_lc = 0;
  },
)

abbrev lower_point : String × String × ℕ → String × ApiEndpoint
lower_point (name, address, port) = (
  name,
  record {
    advertise_address = "";
    advertise_address_lc = address;
    bind_port = 0;
    bind_port_lc = port;
  },
)

-- The spelling that kubeadm reads.
abbrev pub plain_spelling : Content → ClusterStatus
plain_spelling (kind, version, points) = record {
  meta_kind = "";
  meta_api_version = "";
  kind = kind;
  api_version = version;
  api_endpoints = some (map plain_point points);
  api_endpoints_lc = none;
}

-- The spelling with lower-case keys that an earlier release wrote.
abbrev pub lower_spelling : Content → ClusterStatus
lower_spelling (kind, version, points) = record {
  meta_kind = kind;
  meta_api_version = version;
  kind = "";
  api_version = "";
  api_endpoints = none;
  api_endpoints_lc = some (map lower_point points);
}

plain_points :
    (points : List (String × String × ℕ))
    → map plain_endpoint (map plain_point points) ≡ map plain_point points
plain_points [] = refl
plain_points ((name, address, port) ∷ points) = ground (arith, plain_points points)

lower_points :
    (points : List (String × String × ℕ))
    → map plain_endpoint (map lower_point points) ≡ map plain_point points
lower_points [] = refl
lower_points ((name, address, port) ∷ points) =
    ground (arith, eq_iff address "", lower_points points)

-- A status with the plain keys is written back as it is, and one with the lower-case keys is written with
-- the plain ones and the same kind, version, names, addresses and ports; so what is written once is
-- written again unchanged.
pub status_to_write-spellings :
    (content : Content)
    → (status_to_write (plain_spelling content) ≡ plain_spelling content)
      × (status_to_write (lower_spelling content) ≡ plain_spelling content)
unfolding status_to_write
status_to_write-spellings (kind, version, points) = (
  ground (arith, plain_points points),
  ground (arith, eq_iff kind "", eq_iff version "", lower_points points),
)

lookup-erase :
    (name gone : String) (es : Endpoints)
    → lookup name (erase gone es) ≡ (if gone == name then none else lookup name es)
lookup-erase name gone [] = ground arith
lookup-erase name gone ((j, e) ∷ es) =
    ground (arith, eq_iff j gone, eq_iff j name, eq_iff gone name, lookup-erase name gone es)

entries-delete_endpoint :
    (gone : String) (k : ClusterStatus)
    → entries (api_endpoints_of (delete_endpoint gone k))
      ≡ erase gone (entries (api_endpoints_of k))
entries-delete_endpoint gone k = ground arith

-- The written status has every endpoint but the removed one.
pub endpoint_at-removed :
    (name gone : String) (k : ClusterStatus)
    → endpoint_at name (status_to_write (delete_endpoint gone k))
      ≡ (if gone == name then none else endpoint_at name k)
endpoint_at-removed name gone k = ground (
  arith,
  (status_to_write_keeps (delete_endpoint gone k)).3 name,
  entries-delete_endpoint gone k,
  lookup-erase name gone (entries (api_endpoints_of k)),
)

abbrev pub read_config : Call
read_config = Call.get_config_map "kube-system" "kubeadm-config"

abbrev pub write_config : String → ConfigMap → Call
write_config text cm =
    Call.update_config_map "kube-system"
      (record cm { contents = insert cluster_status_config_map_key text cm.contents })

-- If the ConfigMap's status lists the node and the new text is accepted, the ConfigMap is updated once,
-- with a status that has exactly the other endpoints, and the call returns the removed address and the
-- addresses of the others.
pub remove_kubeadm_endpoint_lem :
    (gone : String) (env : Env) (t : Trace) (cm : ConfigMap) (yaml text : String)
    (k : ClusterStatus) (e : ApiEndpoint)
    → env.answer read_config t ≡ ok cm
    → lookup cluster_status_config_map_key cm.contents ≡ some yaml
    → env.unmarshal_status yaml ≡ some k
    → lookup gone (entries (api_endpoints_of k)) ≡ some e
    → env.marshal_status (status_to_write (delete_endpoint gone k)) ≡ some text
    → env.answer (write_config text cm) (read_config ∷ t) ≡ ok tt
    → (remove_kubeadm_endpoint gone env t ≡ (
      ok (advertise_address_of e, addresses (erase gone (entries (api_endpoints_of k)))),
      write_config text cm ∷ read_config ∷ t,
    ))
      × ((name : String)
          → endpoint_at name (status_to_write (delete_endpoint gone k))
            ≡ (if gone == name then none else endpoint_at name k))
unfolding remove_kubeadm_endpoint
remove_kubeadm_endpoint_lem gone env t cm yaml text k e read has parsed listed printed updated =
    (ground (arith, entries-delete_endpoint gone k), λ name. endpoint_at-removed name gone k)
