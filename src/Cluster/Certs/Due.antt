-- ===== src/Cluster/Certs/Due.antt =====
-- When the certificates are due.
use ekco.Prelude.{
  ℕ, ◌+◌, ◌≡◌, Bool, true, false, not, ◌&&◌, some, ◌∷◌, arith, ltb, if◌then◌else◌, lookup-insert,
}
use ekco.Errors.{ok}
use ekco.Kube.{ConfigMap, Call, Trace, Env}
use ekco.Cluster.Config.{ControllerConfig}
use ekco.Cluster.Certs.{
  rotate_certs_value, rotate_certs_last_attempted, stamped, check_rotate_certs_due,
}

-- After an attempt that was stamped at `n`, with a text that is read back as `n`, and with a clock that
-- stands at `now`: a check without `reset` that finds the interval not over sends no update and is
-- not due, and any other is due once its stamp is accepted.
pub check_rotate_certs_due-stamped :
    (cfg : ControllerConfig) (reset : Bool) (env : Env) (cm : ConfigMap) (n now : ℕ) (t : Trace)
    → env.parse_time (env.format_time n) ≡ some n
    → env.answer (Call.get_config_map cfg.rotate_certs_namespace rotate_certs_value) t
      ≡ ok (stamped (env.format_time n) cm)
    → ((u : Trace) → env.answer Call.now u ≡ now)
    → ((c : ConfigMap) (u : Trace)
        → env.answer (Call.update_config_map cfg.rotate_certs_namespace c) u ≡ ok tt)
    → let get = Call.get_config_map cfg.rotate_certs_namespace rotate_certs_value in
      let again = stamped (env.format_time now) (stamped (env.format_time n) cm) in
      check_rotate_certs_due cfg reset env t ≡ (
        if ltb now (n + cfg.rotate_certs_check_interval) && not reset
        then (ok false, Call.now ∷ get ∷ t)
        else (
          ok true,
          Call.update_config_map cfg.rotate_certs_namespace again ∷ Call.now ∷ Call.now ∷ get ∷ t,
        ))
unfolding check_rotate_certs_due
check_rotate_certs_due-stamped cfg reset env cm n now t read found clock accepted =
    grind (arith, lookup-insert rotate_certs_last_attempted (env.format_time n) cm.contents)
