-- ===== src/PodExec/Checked.antt =====
-- What a caller in Rook makes of the answers of `SyncExec`.
use ekco.Prelude.{◌≡◌, ◌↔◌, none, some, arith}
use ekco.Errors.{ceph_enoent, ok, err}
use ekco.Kube.{Trace, Env}
use ekco.Cluster.Exec.{check_exit}
use ekco.PodExec.{code_exit_error, Streamed, exec_container, sync_exec}

module _ (env : Env) (t : Trace) where
  -- Rook takes a command to have worked exactly if its stream was made and ended without an error, and to
  -- have found no entry exactly if it ended with the exit code 2.
  pub check_exit-sync_exec :
      (s : Streamed)
      → ((check_exit (sync_exec s) env t ≡ (ok tt, t)) ↔ ((s.executor ≡ ok tt) × (s.ended ≡ none)))
        × ((check_exit (sync_exec s) env t ≡ (err ceph_enoent, t))
            ↔ ((s.executor ≡ ok tt) × (s.ended ≡ some (code_exit_error 2))))
  unfolding sync_exec exec_container
  check_exit-sync_exec s =
      ((λ h. ground arith, λ h. ground arith), (λ h. ground arith, λ h. ground arith))
