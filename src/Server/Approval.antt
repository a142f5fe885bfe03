-- ===== src/Server/Approval.antt =====
-- pkg/server/server.go: who may start a migration.
use ekco.Prelude.{String, ◌≡◌, ◌∷◌, arith, if◌then◌else◌}
use ekco.Errors.{ok}
use ekco.Kube.{Call, Trace, Env}
use ekco.Ekcoops.Config.{Config}
use ekco.Server.{ok_200, unauthorized_401, approve, is_authorized}

-- A migration is started, and the answer is 200, exactly for a request with the configured token, or for
-- any request where no token is configured; else the answer is 401 and nothing is called.
pub approve-authorized :
    (cfg : Config) (header : String) (env : Env) (t : Trace)
    → approve cfg header env t ≡ (
        if is_authorized cfg.storage_migration_auth_token header
        then (ok (ok_200 tt), Call.start_migration ∷ t)
        else (ok unauthorized_401, t))
unfolding approve
approve-authorized cfg header env t = ground arith
