-- ===== src/Cluster/Filesystem/Stuck.antt =====
-- pkg/cluster/rook_ceph.go: without the one tools pod, a wait for a filesystem says nothing of it.
use ekco.Prelude.{ℕ, zero, suc, String, ◌≡◌, refl, Bool, true, false, List, [], ◌∷◌, arith}
use ekco.Errors.{failure, ok, err}
use ekco.Kube.{Pod, Version, Call, Trace, Env}
use ekco.Cluster.Versions.{rook_ceph_ns, rook_v14}
use ekco.Cluster.Exec.{exec_target}
use ekco.Cluster.Filesystem.{in_only_pod, ceph_filesystem_ok, wait_loop, wait_ceph_filesystem}

-- There is no pod to run in, or more than one.
abbrev pub is_only : List Pod → Bool
is_only (pod ∷ []) = true
is_only _ = false

-- No list that the server gives of the pods of either label has exactly one.
abbrev pub NoOnlyPod : Env → Type 0
NoOnlyPod env =
    (selector : String) (t : Trace)
    → (pods : List Pod) × (env.answer (Call.list_pods rook_ceph_ns selector) t ≡ ok pods)
      × (is_only pods ≡ false)

not_only :
    (container name : String) (pods : List Pod) (env : Env) (t : Trace)
    → is_only pods ≡ false
    → in_only_pod container name pods env t ≡ (ok false, t)
not_only container name [] env t several = refl
not_only container name (pod ∷ []) env t several = cc
not_only container name (pod ∷ next ∷ pods) env t several = refl

module _ (rook_version : Version) (name : String) (env : Env) (none_only : NoOnlyPod env) where
  abbrev target : String × String
  target = exec_target (env.semver_lt rook_version rook_v14)

  not_ok : (t : Trace) → (ceph_filesystem_ok rook_version name env t).0 ≡ ok false
  unfolding ceph_filesystem_ok
  not_ok t =
      let (pods, listed, several) = none_only target.1 t in
      let u = Call.list_pods rook_ceph_ns target.1 ∷ t in
      grind (arith, listed, not_only target.0 name pods env u several)

  loop_stuck :
      (waits : ℕ) (t : Trace)
      → (wait_loop (ceph_filesystem_ok rook_version name) waits env t).0
        ≡ err (failure "context done")
  unfolding wait_loop
  loop_stuck zero t = refl
  loop_stuck (suc waits) t =
      let u = (ceph_filesystem_ok rook_version name env t).1 in
      grind (arith, not_ok t, loop_stuck waits u)

  -- If the server never lists exactly one Rook pod, a wait for a filesystem goes on until the context ends,
  -- however many waits that takes, and then gives the error of the context: that there is no pod to run
  -- in, or more than one, is never reported.
  pub wait_ceph_filesystem-stuck :
      (t : Trace) → (wait_ceph_filesystem rook_version name env t).0 ≡ err (failure "context done")
  unfolding wait_ceph_filesystem
  wait_ceph_filesystem-stuck t =
      let u = (ceph_filesystem_ok rook_version name env t).1 in grind (arith, not_ok t, loop_stuck)
