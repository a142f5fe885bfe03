-- ===== src/Cluster/Filesystem.antt =====
-- pkg/cluster/rook_ceph.go: `CephFilesystemOK` and `WaitCephFilesystem`.
pub mod Stuck
use Prim.Native.String.{◌++◌ as join_text}
use ekco.Prelude.{ℕ, zero, suc, String, Bool, false, ◌&&◌, List, [], ◌∷◌, eqb, if◌then◌else◌}
use ekco.Errors.{Result, failure, wrapped, ok, err}
use ekco.Kube.{
  Pod, ExecResult, Version, Piece, word, Call, Action, pure, raise, send, ◌>>=◌, ◌>>◌, expect, done,
}
use ekco.Prelude.Text.{contains_text}
use ekco.Cluster.Versions.{rook_ceph_ns}
use ekco.Cluster.Exec.{rook_ceph_exec_target}

abbrev mds_metadata : List Piece
mds_metadata = word "ceph" ∷ word "mds" ∷ word "metadata" ∷ []

abbrev pub has_both : String → String → Bool
has_both name stdout =
    contains_text stdout (join_text name "-a") && contains_text stdout (join_text name "-b")

abbrev check_mds : String → ExecResult × Result (Unit {0}) → Action Bool
check_mds name (r, err e) = raise (wrapped "running 'ceph fs ls'" e)
check_mds name (r, ok _) =
    if eqb r.exit_code 0
    then pure (has_both name r.stdout)
    else raise (failure "failed to list ceph filesystems")

-- Unless there is one pod, `errors.Wrapf` is applied to a nil `err`, and gives nil.
abbrev in_only_pod : String → String → List Pod → Action Bool
in_only_pod container name [] = pure false
in_only_pod container name (pod ∷ []) = do
  out ← send (Call.exec_container rook_ceph_ns pod.name container mds_metadata)
  check_mds name out
in_only_pod container name (pod ∷ next ∷ pods) = pure false

unfoldable pub ceph_filesystem_ok : Version → String → Action Bool
ceph_filesystem_ok rook_version name = do
  (container, rook_labels) ← rook_ceph_exec_target rook_version
  pods ← expect "list Rook tools pods" (send (Call.list_pods rook_ceph_ns rook_labels))
  in_only_pod container name pods

-- The loop, over the waits of a second that end before the context does.
unfoldable pub wait_loop : Action Bool → ℕ → Action (Unit {0})
wait_loop check zero = raise (failure "context done")
wait_loop check (suc waits) = do
  ready ← check
  let again = wait_loop check waits
  if ready then done else again

-- The pause of ten seconds at the end is left out.
unfoldable pub wait_ceph_filesystem : Version → String → Action (Unit {0})
wait_ceph_filesystem rook_version name = do
  ready ← ceph_filesystem_ok rook_version name
  if ready
      then done
      else do waits ← send Call.waits_left; wait_loop (ceph_filesystem_ok rook_version name) waits
