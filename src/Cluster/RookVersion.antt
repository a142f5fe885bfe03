-- ===== src/Cluster/RookVersion.antt =====
-- The versions of Rook and Ceph, from an image tag or a status: `GetRookVersion` of
-- pkg/cluster/rook_ceph.go and `GetCephVersion` of pkg/rook/cephcluster.go.
use Prim.Native.Char.{code}
use ekco.Prelude.{String, Option, none, some, List, [], ◌∷◌, ◌==◌, eqb, if◌then◌else◌, any}
use ekco.Errors.{failure}
use ekco.Kube.{
  Container, Version, CephCluster, Call, Action, pure, raise, asks, wrap, send, ◌>>=◌, ◌>>◌, expect,
}
use ekco.Cluster.Versions.{rook_ceph_ns}

last_part_from : String → String → String
last_part_from part String.[] = part
last_part_from part (String.◌∷◌ c s) = last_part_from (if eqb (code c) b':' then s else part) s

-- `parts[len(parts)-1]` of `strings.Split(s, ":")`
unfoldable pub last_part : String → String
unfolding last_part_from
last_part s = last_part_from s s

-- `strings.TrimPrefix(s, "v")`
abbrev pub trim_v : String → String
trim_v String.[] = String.[]
trim_v (String.◌∷◌ c s) = if eqb (code c) b'v' then s else String.◌∷◌ c s

abbrev parse_or_raise : String → Option Version → Action Version
parse_or_raise note none = raise (failure note)
parse_or_raise note (some v) = pure v

abbrev pub parse_semver : String → Action Version
parse_semver s = do parse_or_raise "parse semver" (← asks (λ env. env.semver_parse s))

-- The image of `Containers[0]`, which the loop reads whichever container has the name.
abbrev first_image : List Container → String
first_image [] = ""
first_image (c ∷ cs) = c.image

abbrev pub operator_version : List Container → Action Version
operator_version containers =
    if any (λ c. c.name == "rook-ceph-operator") containers
    then wrap "parse semver" (parse_semver (trim_v (last_part (first_image containers))))
    else raise (failure "rook-ceph-operator container not found in deployment")

unfoldable pub get_rook_version : Action Version
get_rook_version = do
  expect "get rook-ceph namespace" (send (Call.get_namespace rook_ceph_ns))
  deploy ←
      expect "get rook-ceph-operator deployment"
        (send (Call.get_deployment rook_ceph_ns "rook-ceph-operator"))
  operator_version deploy.containers

abbrev image_version : Version → Version
image_version v = record v { pre = "0" ∷ [] }

abbrev version_of_status : String → Option String → Action Version
version_of_status image (some s) = parse_semver s
version_of_status image none = do
  v ← parse_semver (trim_v (last_part image))
  pure (image_version v)

unfoldable pub get_ceph_version : CephCluster → Action Version
get_ceph_version cluster = version_of_status cluster.image cluster.status_version
