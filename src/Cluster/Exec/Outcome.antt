-- ===== src/Cluster/Exec/Outcome.antt =====
-- What a ceph command that is reported to have worked has done.
use ekco.Prelude.{String, List, [], ◌∷◌, ◌≡◌, ◌⊎◌, ◌↔◌, arith}
use ekco.Errors.{ok}
use ekco.Kube.{Version, Piece, Pod, Call, Env, Trace}
use ekco.Cluster.Versions.{rook_v14, rook_ceph_ns}
use ekco.Cluster.Exec.{exec_target, rook_ceph_exec}

module _ (rook_version : Version) (env : Env) where
  abbrev pub container_of : String
  container_of = (exec_target (env.semver_lt rook_version rook_v14)).0

  -- The pods that a command may run in.
  abbrev pub list_rook_pods : Call
  list_rook_pods = Call.list_pods rook_ceph_ns (exec_target (env.semver_lt rook_version rook_v14)).1

  abbrev pub exec_in : Pod → List Piece → Call
  exec_in pod cmd = Call.exec_container rook_ceph_ns pod.name container_of cmd

  -- The command ran in the first pod, with no error and exit code 0.
  abbrev pub Ran : List Piece → Trace → Type 0
  Ran cmd t =
      (pod : Pod) × (pods : List Pod) × (env.answer list_rook_pods t ≡ ok (pod ∷ pods))
      × ((env.answer (exec_in pod cmd) (list_rook_pods ∷ t)).0.exit_code ≡ 0)
      × ((env.answer (exec_in pod cmd) (list_rook_pods ∷ t)).1 ≡ ok tt)
      × ((rook_ceph_exec rook_version cmd env t).1 ≡ exec_in pod cmd ∷ list_rook_pods ∷ t)

  -- A command is reported to have worked exactly if it ran in the first Rook pod with no error and exit
  -- code 0, or there was no Rook pod and nothing ran.
  pub rook_ceph_exec-ok :
      (cmd : List Piece) (t : Trace)
      → ((rook_ceph_exec rook_version cmd env t).0 ≡ ok tt) ↔ (
          (env.answer list_rook_pods t ≡ ok [])
            × ((rook_ceph_exec rook_version cmd env t).1 ≡ list_rook_pods ∷ t)
          ⊎ Ran cmd t)
  unfolding rook_ceph_exec
  rook_ceph_exec-ok cmd t = (λ h. ground arith, λ h. ground arith)
