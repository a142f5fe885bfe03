-- ===== src/Ekcoops/Operator/Minio.antt =====
-- The lock of the minio reconcile, which runs in the background of every `Reconcile`.
use ekco.Prelude.{◌≡◌, ◌∷◌, arith, if◌then◌else◌}
use ekco.Errors.{ok}
use ekco.Kube.{Call, minio, Trace, Env}
use ekco.Ekcoops.Config.{Config, Services}
use ekco.Ekcoops.Operator.{locked_minio, reconcile_minio}

module _ (cfg : Config) (services : Services) (env : Env) (t : Trace) where
  -- While minio is paused, or another reconcile holds the lock, nothing is managed and the lock is not
  -- released; otherwise the work is done under the lock, and the lock is released last, whether or not
  -- the work failed, and its error is returned.
  pub reconcile_minio-lock : reconcile_minio cfg services env t ≡ (
      let asked = Call.read_paused minio ∷ t in
      let locked = Call.try_lock_minio ∷ asked in
      let work = locked_minio cfg services env locked in
      if env.answer (Call.read_paused minio) t
      then (ok tt, asked)
      else if env.answer Call.try_lock_minio asked
      then (work.0, Call.unlock_minio ∷ work.1)
      else (ok tt, locked))
  unfolding reconcile_minio
  reconcile_minio-lock = ground arith
