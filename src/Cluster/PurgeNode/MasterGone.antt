-- ===== src/Cluster/PurgeNode/MasterGone.antt =====
-- What taking out a master has done when it worked.
use ekco.Prelude.{
  String, ◌≡◌, refl, ◌⊎◌, inl, inr, Bool, true, false, not, Option, List, arith, ◌==◌,
  if◌then◌else◌, is_empty,
}
use ekco.Errors.{ok}
use ekco.Kube.{bind-inv, Node, Trace, Action, pure, wrap, ◌>>=◌, when, Env}
use ekco.Cluster.PurgeNode.{internal_ip_if_known, remove_master}
use ekco.Cluster.Etcd.{remove_etcd_peer}
use ekco.Cluster.Etcd.Gone.{EtcdGone, remove_etcd_peer-EtcdGone}
use ekco.Cluster.Kubeadm.{remove_kubeadm_endpoint, get_endpoint_ips_from_pods}

-- The address of the removed endpoint, or else that of the Node.
abbrev pub address_of : String → Option Node → String
address_of removed_ip node = if removed_ip == "" then internal_ip_if_known node else removed_ip

-- The API endpoint was removed without an error, and after that the etcd member at its address, if an
-- address is known.
abbrev pub MasterGone : String → Option Node → Env → Trace → Trace → Type 0
MasterGone name node env u s =
    (ip : String) × (ips : List String) × (v : Trace) × (remove_kubeadm_endpoint name env u
      ≡ (ok (ip, ips), v))
    × (((address_of ip node == "") ≡ true) ⊎ EtcdGone (address_of ip node) env s)

module _ (name : String) (node : Option Node) (env : Env) where
  abbrev remaining : List String → Action (List String)
  remaining ips =
      if is_empty ips
      then wrap "could not get cluster endpoints from pods" get_endpoint_ips_from_pods
      else pure ips

  abbrev remove_peer : String → List String → Action (Unit {0})
  remove_peer ip ips =
      when (not (address_of ip node == "")) (remove_etcd_peer (address_of ip node) ips)

  peer-gone :
      (ip : String) (ips : List String) (b : Bool) (t s : Trace)
      → (address_of ip node == "") ≡ b
      → remove_peer ip ips env t ≡ (ok tt, s)
      → ((address_of ip node == "") ≡ true) ⊎ EtcdGone (address_of ip node) env s
  peer-gone ip ips true t s unknown worked = inl unknown
  peer-gone ip ips false t s known worked =
      inr
        (remove_etcd_peer-EtcdGone (address_of ip node) ips env t s (grind (arith, known, worked)))

  pub remove_master-MasterGone :
      (u s : Trace) → remove_master name node env u ≡ (ok tt, s) → MasterGone name node env u s
  unfolding remove_master
  remove_master-MasterGone u s worked =
      let ((ip, ips), first, next) =
        bind-inv (remove_kubeadm_endpoint name) (λ p. remaining p.1 >>= remove_peer p.0) env u s tt
          worked in
      let v = (remove_kubeadm_endpoint name env u).1 in
      let (rest, second, last) = bind-inv (remaining ips) (remove_peer ip) env v s tt next in
      (
        ip,
        ips,
        v,
        first,
        peer-gone ip rest (address_of ip node == "") (remaining ips env v).1 s refl last,
      )
