-- ===== src/Server.antt =====
-- pkg/server/server.go: the endpoints of the storage migration, by the status code they answer. Where
-- the text of an answer cannot be written or marshalled, that is logged or answered with 500.
pub mod Approval
use Prim.Native.String.{◌++◌ as join_text}
use ekco.Prelude.{String, Bool, not, ◌&&◌, ◌||◌, ◌==◌, if◌then◌else◌}
use ekco.Errors.{Error, Result, ok, err}
use ekco.Kube.{MigrationStatus, Call, Action, pure, attempt, send, ◌>>=◌, ◌>>◌}
use ekco.Ekcoops.Config.{Config}
use ekco.Migrate.Ready.{
  MigrationReadyResult, ClusterReadyResult, is_migration_ready, is_cluster_ready,
}
use ekco.Migrate.Status.{get_migration_status}

-- 200 with the value, or 500 with the error.
pub data Answer {ℓ} (A : Type ℓ) : Type ℓ where
  ok_200 : A → Answer A
  error_500 : Error → Answer A
  unauthorized_401 : Answer A

abbrev answer_of {ℓ} : {A : Type ℓ} → Result A → Answer A
answer_of (ok a) = ok_200 a
answer_of (err e) = error_500 e

unfoldable pub cluster_ready : Config → Action (Answer ClusterReadyResult)
cluster_ready cfg = do r ← attempt (is_cluster_ready cfg); pure (answer_of r)

unfoldable pub ready : Config → Action (Answer MigrationReadyResult)
ready cfg = do r ← attempt (is_migration_ready cfg); pure (answer_of r)

unfoldable pub status : Action (Answer MigrationStatus)
status = do r ← attempt get_migration_status; pure (answer_of r)

abbrev pub is_authorized : String → String → Bool
is_authorized token header = header == join_text "Bearer " token || token == ""

-- The migration runs in the background: here it is only started.
unfoldable pub approve : Config → String → Action (Answer (Unit {0}))
approve cfg header =
    if not (header == join_text "Bearer " cfg.storage_migration_auth_token)
      && not (cfg.storage_migration_auth_token == "")
    then pure unauthorized_401
    else do started ← send Call.start_migration; pure (ok_200 tt)
