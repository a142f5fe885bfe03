-- ===== src/Cluster/Etcd.antt =====
-- pkg/cluster/etcd.go: taking a lost node out of the etcd cluster. Reading the certificates is one
-- call, `get_etcd_tls`.
pub mod Gone
use Prim.Native.String.{◌++◌ as join_text}
use ekco.Prelude.{ℕ, String, Bool, true, false, not, List, [], ◌∷◌, map, ◌==◌, eqb, if◌then◌else◌}
use ekco.Kube.{EtcdMember, Call, Action, asks, send, ◌>>=◌, ◌>>◌, expect, when, Env}
use ekco.Cluster.Storage.Hosts.{codes}

has_colon : List ℕ → Bool
has_colon [] = false
has_colon (c ∷ s) = if eqb c b':' then true else has_colon s

-- `net.JoinHostPort`: a host with a colon, as an IPv6 address is, goes in brackets.
unfoldable pub join_host_port : String → String → String
unfolding has_colon
join_host_port host port =
    if has_colon (codes host)
    then join_text "[" (join_text host (join_text "]:" port))
    else join_text host (join_text ":" port)

unfoldable pub get_etcd_peer_url : Env → String → String
get_etcd_peer_url env ip = join_text "https://" (join_host_port ip env.etcd_peer_port)

unfoldable pub get_etcd_client_url : Env → String → String
get_etcd_client_url env ip = join_text "https://" (join_host_port ip env.etcd_client_port)

-- The loop over the members keeps the id of the last one at the URL, and 0 if there is none.
unfoldable pub purged_member_id : String → ℕ → List EtcdMember → ℕ
purged_member_id url id [] = id
purged_member_id url id (member ∷ members) =
    purged_member_id url (if member.first_peer_url == url then member.id else id) members

unfoldable pub remove_etcd_peer : String → List String → Action (Unit {0})
remove_etcd_peer ip remaining_ips = do
  removed_peer_url ← asks (λ env. get_etcd_peer_url env ip)
  good_etcd_endpoints ← asks (λ env. map (get_etcd_client_url env) remaining_ips)
  expect "get etcd ca" (send Call.get_etcd_tls)
  expect "new etcd client" (send (Call.new_etcd_client good_etcd_endpoints))
  members ← expect "list etcd members" (send Call.etcd_member_list)
  let id = purged_member_id removed_peer_url 0 members
  when (not (eqb id 0)) (expect "remove etcd member" (send (Call.etcd_member_remove id)))
