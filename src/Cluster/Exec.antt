-- ===== src/Cluster/Exec.antt =====
-- pkg/cluster/rook_ceph.go: running ceph commands in a Rook pod.
pub mod Outcome
use ekco.Prelude.{
  ℕ, String, Bool, ◌&&◌, Option, none, some, List, [], ◌∷◌, ◌++◌, leb, eqb, if◌then◌else◌,
}
use ekco.Errors.{Result, failure, ceph_enoent, ok, err}
use ekco.Kube.{
  Pod, ExecResult, Version, Piece, word, number, Call, Action, pure, raise, asks, send, ◌>>=◌, ◌>>◌,
  expect, done,
}
use ekco.Cluster.Versions.{rook_v14, ceph_pacific, rook_ceph_ns}

-- `v.LT(w)`
abbrev pub before : Version → Version → Action Bool
before v w = asks (λ env. env.semver_lt v w)

-- container, label selector
abbrev pub exec_target : Bool → String × String
exec_target old =
    if old
    then ("rook-ceph-operator", "app=rook-ceph-operator")
    else ("rook-ceph-tools", "app=rook-ceph-tools")

abbrev pub rook_ceph_exec_target : Version → Action (String × String)
rook_ceph_exec_target rook_version = do old ← before rook_version rook_v14; pure (exec_target old)

-- The end of `rookCephExec`: the error of the call, then the exit code.
abbrev pub check_exit : ExecResult × Result (Unit {0}) → Action (Unit {0})
check_exit (r, err e) = raise e
check_exit (r, ok _) =
    if eqb r.exit_code 2
    then raise ceph_enoent
    else if eqb r.exit_code 0
    then done
    else raise (failure "exec")

-- With no pod `rookCephExec` returns `errors.Wrap(err, …)` of a nil `err`, which is nil.
abbrev pub exec_in_first : String → List Piece → List Pod → Action (Unit {0})
exec_in_first container cmd [] = done
exec_in_first container cmd (pod ∷ pods) = do
  out ← send (Call.exec_container rook_ceph_ns pod.name container cmd)
  check_exit out

unfoldable pub rook_ceph_exec : Version → List Piece → Action (Unit {0})
rook_ceph_exec rook_version cmd = do
  (container, rook_labels) ← rook_ceph_exec_target rook_version
  pods ← expect "list Rook pods" (send (Call.list_pods rook_ceph_ns rook_labels))
  exec_in_first container cmd pods

abbrev pub confirm_flag : ℕ → Option Version → List Piece
confirm_flag size none = []
confirm_flag size (some v) =
    if eqb size 1 && leb ceph_pacific.major v.major then word "--yes-i-really-mean-it" ∷ [] else []

abbrev pub set_pool : String → String → ℕ → List Piece
set_pool name property value =
    word "ceph"
    ∷ word "osd"
    ∷ word "pool"
    ∷ word "set"
    ∷ word name
    ∷ word property
    ∷ number value
    ∷ []

unfoldable pub ceph_osd_pool_set_size : Version → Option Version → String → ℕ → Action (Unit {0})
ceph_osd_pool_set_size rook_version ceph_version name size =
    rook_ceph_exec rook_version (set_pool name "size" size ++ confirm_flag size ceph_version)

unfoldable pub ceph_osd_pool_set_min_size : Version → String → ℕ → Action (Unit {0})
ceph_osd_pool_set_min_size rook_version name min_size =
    rook_ceph_exec rook_version (set_pool name "min_size" min_size)

unfoldable pub ceph_osd_pool_set_pg_num_min : Version → String → ℕ → Action (Unit {0})
ceph_osd_pool_set_pg_num_min rook_version name pg_num_min =
    rook_ceph_exec rook_version (set_pool name "pg_num_min" pg_num_min)
